-- ===== src/Tables/Replacing.antt =====
-- A table in which the chain of one key is changed.
use librep.Prelude.{
  ℕ, ◌+◌, ◌%◌, ◌≤◌, ◌<◌, ◌≡◌, refl, ap, sym, Bool, true, false, Option, some, List, [], ◌∷◌, length,
  ◌==◌, if◌then◌else◌, arith, ◌∙◌, Bool-cases, inl, inr,
}
use librep.Value.{Value}
use librep.Tables.{Node, Table, bucket_at, replace_at, lookup}
use librep.Tables.Buckets.{
  Hashing, length-replace_at, count-replace_at, bucket_at-replace_at, IsIn, IsChain, IsTable, get,
  Chains-replace_at,
}
use librep.Tables.Changes.{value_of}
use librep.Tables.Moving.{find, Hashed}
use librep.Tables.Adding.{lookup-get, lookup-empty}

module _ (hash : Value → ℕ) (compare : Value → Value → Bool) (laws : Hashing hash compare) where
  -- The chain of `k` is changed by `f`.
  unfoldable pub changed : Table → Value → (List Node → List Node) → List (List Node)
  changed t k f =
      replace_at t.buckets (hash k % t.total_buckets)
        (f (bucket_at t.buckets (hash k % t.total_buckets)))

  pub some-pos :
      (t : Table) (k : Value) (n : Node) → lookup hash compare t k ≡ some n → 0 < t.total_buckets
  some-pos t k n h = elim (Bool-cases (t.total_buckets == 0)) [
    | inl z ↦ absurd (cc (sym (lookup-empty hash compare laws t k (ground arith)) ∙ h))
    | inr p ↦ ground arith
  ]

  -- Only keys of the same chain can be found otherwise.
  get-changed :
      (t : Table) (k j : Value) (f : List Node → List Node)
      → IsTable hash compare t
      → 0 < t.total_buckets
      → get hash compare t.total_buckets (changed t k f) j ≡ (
          if hash j % t.total_buckets == hash k % t.total_buckets
          then find hash compare j (f (bucket_at t.buckets (hash k % t.total_buckets)))
          else get hash compare t.total_buckets t.buckets j)
  unfolding changed
  get-changed t k j f is pos =
      let i = hash k % t.total_buckets in
      let c = f (bucket_at t.buckets i) in
      ap (find hash compare j) (
        bucket_at-replace_at t.buckets i c (hash j % t.total_buckets)
          (let q = is.size in grind arith))
      ∙ split (hash j % t.total_buckets == i) c (bucket_at t.buckets (hash j % t.total_buckets)) j
    where
      split :
          (b : Bool) (c d : List Node) (j : Value)
          → find hash compare j (if b then c else d)
            ≡ (if b then find hash compare j c else find hash compare j d)
      split true c d j = refl
      split false c d j = refl

  apart : (j k : Value) (size : ℕ) → (hash j % size == hash k % size) ≡ false → compare j k ≡ false
  apart j k size h = elim (Bool-cases (compare j k)) [
    | inl e ↦ absurd (ground (arith, ap (λ x. x % size) (laws.agrees j k e)))
    | inr e ↦ e
  ]

  pub Hashed-bucket :
      (size i : ℕ) (ns : List Node) → IsIn hash compare size i ns → Hashed hash compare laws ns
  Hashed-bucket size i [] p = tt
  Hashed-bucket size i (n ∷ ns) ((e, at), p) = (e, Hashed-bucket size i ns p)

  -- A change of the chain of `k` that answers `g` for its keys and nothing else for the others.
  pub value-changed :
      (t : Table) (k j : Value) (f : List Node → List Node) (answer : Option Value)
      → IsTable hash compare t
      → 0 < t.total_buckets
      → ((j : Value)
          → value_of (find hash compare j (f (bucket_at t.buckets (hash k % t.total_buckets)))) ≡ (
              if compare j k
              then answer
              else value_of (find hash compare j (bucket_at t.buckets (hash k % t.total_buckets)))))
      → value_of (get hash compare t.total_buckets (changed t k f) j)
        ≡ (if compare j k then answer else value_of (lookup hash compare t j))
  value-changed t k j f answer is pos law =
      elim (Bool-cases (hash j % t.total_buckets == hash k % t.total_buckets)) [
        | inl same ↦
            let e : hash j % t.total_buckets ≡ hash k % t.total_buckets = ground arith in
            ap value_of (get-changed t k j f is pos)
            ∙ rw (same, lookup-get hash compare laws t j pos, e) (law j)
        | inr other ↦
            ap value_of (get-changed t k j f is pos)
            ∙ rw (other, lookup-get hash compare laws t j pos, apart j k t.total_buckets other)
      ]

  pub changed-IsTable :
      (t : Table) (k : Value) (f : List Node → List Node) (m : ℕ)
      → IsTable hash compare t
      → 0 < t.total_buckets
      → ((i : ℕ) (ns : List Node)
          → IsChain hash compare t.total_buckets i ns
          → IsChain hash compare t.total_buckets i (f ns))
      → m + length (bucket_at t.buckets (hash k % t.total_buckets))
        ≡ t.total_nodes + length (f (bucket_at t.buckets (hash k % t.total_buckets)))
      → m ≤ t.total_nodes
      → IsTable hash compare (record t { total_nodes = m; buckets = changed t k f })
  unfolding changed
  changed-IsTable t k f m is pos keeps count le =
      let i = hash k % t.total_buckets in
      let c = f (bucket_at t.buckets i) in
      let lt : i < t.total_buckets = grind arith in
      record {
        size = length-replace_at t.buckets i c ∙ is.size;
        chains =
            Chains-replace_at hash compare t.total_buckets t.buckets i c lt is.size
              (keeps i (bucket_at t.buckets i) (is.chains i lt)) is.chains;
        count = omega (
          arith,
          count-replace_at t.buckets i c (let q = is.size in omega arith),
          is.count,
          count,
        );
        load = omega (arith, is.load, le);
      }
