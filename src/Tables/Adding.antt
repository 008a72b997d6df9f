-- ===== src/Tables/Adding.antt =====
-- A node added to a table, whose buckets may grow first.
use librep.Prelude.{
  ℕ, ◌+◌, ◌*◌, ◌%◌, ◌≤◌, ◌<◌, ◌≡◌, refl, ap, sym, Bool, true, false, none, some, List, [], ◌∷◌,
  length, leb, ◌==◌, if◌then◌else◌, arith, ◌∙◌, Bool-cases, inl, inr, replicate,
}
use librep.Value.{Value}
use librep.Tables.{
  Node, Table, push_at, move_buckets, next_size, count_and_grow, is_match, lookup, guard_key,
  add_node,
}
use librep.Tables.Buckets.{
  Hashing, count_nodes, count-push_at, length-push_at, IsTable, get, get-push_at, Chains,
  Chains-push_at,
}
use librep.Tables.Places.{at_place, at_place-nil, at_place-all}
use librep.Tables.Rehash.{moved}

module _ (hash : Value → ℕ) (compare : Value → Value → Bool) (laws : Hashing hash compare) where
  -- A table that has counted a node before it is pushed.
  record Counted (t u : Table) : Type 0 where
    size : length u.buckets ≡ u.total_buckets
    some_bucket : 0 < u.total_buckets
    chains : Chains hash compare u.total_buckets u.buckets
    count : u.total_nodes ≡ count_nodes u.buckets + 1
    load : u.total_nodes ≤ 2 * u.total_buckets
    finds : (j : Value) → get hash compare u.total_buckets u.buckets j ≡ lookup hash compare t j

  pub lookup-get :
      (t : Table) (j : Value)
      → 0 < t.total_buckets
      → lookup hash compare t j ≡ get hash compare t.total_buckets t.buckets j
  unfolding lookup
  lookup-get t j pos = let e : (t.total_buckets == 0) ≡ false = ground arith in rw e

  pub lookup-empty : (t : Table) (j : Value) → t.total_buckets ≡ 0 → lookup hash compare t j ≡ none
  unfolding lookup
  lookup-empty t j z = let e : (t.total_buckets == 0) ≡ true = ground arith in rw e

  next_size_pos : (n : ℕ) → (0 < next_size n) × (2 * n + 1 ≤ 2 * next_size n)
  unfolding next_size
  next_size_pos n = (ground arith, ground arith)

  -- What the place of a key's hash holds in the old buckets is what `lookup` finds.
  at_place-lookup :
      (t : Table) (j : Value)
      → length t.buckets ≡ t.total_buckets
      → at_place hash compare laws 0 t.buckets j (hash j % t.total_buckets)
        ≡ lookup hash compare t j
  at_place-lookup t j len = elim (Bool-cases (t.total_buckets == 0)) [
    | inl z ↦
        let none_there : length t.buckets ≡ 0 = ground arith in
        no_bucket t.buckets (hash j % t.total_buckets) none_there
        ∙ sym (lookup-empty t j (ground arith))
    | inr p ↦
        let pos : 0 < t.total_buckets = ground arith in
        at_place-all hash compare laws t.buckets j (hash j % t.total_buckets) (grind arith)
        ∙ sym (lookup-get t j pos)
  ]
    where
      no_bucket :
          (bs : List (List Node)) (i : ℕ)
          → length bs ≡ 0
          → at_place hash compare laws 0 bs j i ≡ none
      no_bucket [] i e = at_place-nil hash compare laws 0 j i
      no_bucket (b ∷ bs) i e = absurd (omega arith)

  grow-Counted :
      (t : Table)
      → IsTable hash compare t
      → leb (2 * t.total_buckets) (t.total_nodes + 1) ≡ true
      → Counted t (record t {
        total_nodes = t.total_nodes + 1;
        total_buckets = next_size t.total_buckets;
        buckets =
            move_buckets
              (next_size t.total_buckets)
              t.buckets
              (replicate (next_size t.total_buckets) []);
      })
  grow-Counted t v h =
      let (pos, room) = next_size_pos t.total_buckets in
      let m =
        moved hash compare laws t.total_buckets (next_size t.total_buckets) t.buckets pos v.size
          v.chains in
      record {
        size = m.length;
        some_bucket = pos;
        chains = m.chains;
        count = omega (arith, m.count, v.count);
        load = omega (arith, v.load);
        finds = λ j. m.finds j ∙ at_place-lookup t j v.size;
      }

  count-Counted : (t : Table) → IsTable hash compare t → Counted t (count_and_grow t)
  unfolding count_and_grow
  count-Counted t v = elim (Bool-cases (leb (2 * t.total_buckets) (t.total_nodes + 1))) [
    | inl h ↦ rw h (grow-Counted t v h)
    | inr h ↦ rw h (record {
      size = v.size;
      some_bucket = ground arith;
      chains = v.chains;
      count = omega (arith, v.count);
      load = ground arith;
      finds = λ j. sym (lookup-get t j (ground arith));
    })
  ]

  pushed : Table → Node → Table
  pushed u n = record u { buckets = push_at u.buckets (n.hash % u.total_buckets) n }

  pub add_node-IsTable :
      (t : Table) (k v : Value)
      → IsTable hash compare t
      → lookup hash compare t k ≡ none
      → IsTable hash compare (add_node hash compare t k v)
  unfolding add_node
  add_node-IsTable t k v is absent =
      let c = count-Counted t is in
      let u = count_and_grow t in
      let n : Node = record { key = k; value = v; hash = hash k } in
      record {
        size = length-push_at u.buckets (hash k % u.total_buckets) n ∙ c.size;
        chains =
            Chains-push_at hash compare u.total_buckets u.buckets n c.some_bucket c.size refl
              (c.finds k ∙ absent) c.chains;
        count = c.count ∙ sym (count-push_at u.buckets (hash k % u.total_buckets) n (inside c));
        load = c.load;
      }
    where
      inside :
          Counted t (count_and_grow t)
          → hash k % (count_and_grow t).total_buckets < length (count_and_grow t).buckets
      inside c = let p = c.some_bucket in let q = c.size in grind arith

  pub add_node-lookup :
      (t : Table) (k v j : Value)
      → IsTable hash compare t
      → lookup hash compare (add_node hash compare t k v) j ≡ (
          if is_match hash compare j (record { key = k; value = v; hash = hash k })
          then some (record { key = k; value = v; hash = hash k })
          else lookup hash compare t j)
  unfolding add_node
  add_node-lookup t k v j is =
      let c = count-Counted t is in
      let u = count_and_grow t in
      let n : Node = record { key = k; value = v; hash = hash k } in
      lookup-get
        (record u {
          buckets = push_at u.buckets (hash k % u.total_buckets) n;
          guardian = guard_key hash compare k u.guardian;
        })
        j c.some_bucket
      ∙ get-push_at hash compare u.total_buckets u.buckets n j c.some_bucket c.size
      ∙ ap (λ o. if is_match hash compare j n then some n else o) (c.finds j)
