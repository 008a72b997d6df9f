-- ===== src/Tables/Buckets.antt =====
-- The invariant of a hash table, and what a push or a changed chain does to its buckets.
use librep.Prelude.{
  ℕ, zero, suc, ◌+◌, ◌*◌, ◌%◌, ◌≤◌, ◌<◌, ◌≡◌, refl, ap, sym, Bool, true, false, Option, none, some,
  List, [], ◌∷◌, length, ◌==◌, if◌then◌else◌, arith, All, ◌∙◌, Bool-cases, inl, inr,
}
use mathlib.Core.Path.{subst}
use librep.Value.{Value}
use librep.Tables.{Node, Table, bucket_at, push_at, replace_at, is_match, find_node}

-- What the hash and the compare function of a table must satisfy: keys that compare equal have equal
-- hashes, and comparing is an equivalence.
pub record Hashing (hash : Value → ℕ) (compare : Value → Value → Bool) : Type 0 where
  pub agrees : (a b : Value) → compare a b ≡ true → hash a ≡ hash b
  pub itself : (a : Value) → compare a a ≡ true
  pub symmetric : (a b : Value) → compare a b ≡ true → compare b a ≡ true
  pub transitive : (a b c : Value) → compare a b ≡ true → compare b c ≡ true → compare a c ≡ true

abbrev pub count_nodes : List (List Node) → ℕ
count_nodes [] = 0
count_nodes (b ∷ bs) = length b + count_nodes bs

pub bucket-le-count : (bs : List (List Node)) (i : ℕ) → length (bucket_at bs i) ≤ count_nodes bs
bucket-le-count [] i = omega arith
bucket-le-count (b ∷ bs) zero = omega arith
bucket-le-count (b ∷ bs) (suc i) = omega (arith, bucket-le-count bs i)

pub count-push_at :
    (bs : List (List Node)) (i : ℕ) (n : Node)
    → i < length bs
    → count_nodes (push_at bs i n) ≡ count_nodes bs + 1
unfolding push_at
count-push_at [] i n h = absurd (omega arith)
count-push_at (b ∷ bs) zero n h = omega arith
count-push_at (b ∷ bs) (suc i) n h = omega (arith, count-push_at bs i n (omega arith))

pub length-push_at :
    (bs : List (List Node)) (i : ℕ) (n : Node) → length (push_at bs i n) ≡ length bs
unfolding push_at
length-push_at [] i n = refl
length-push_at (b ∷ bs) zero n = refl
length-push_at (b ∷ bs) (suc i) n = ap suc (length-push_at bs i n)

pub bucket_at-push_at :
    (bs : List (List Node)) (i : ℕ) (n : Node) (k : ℕ)
    → i < length bs
    → bucket_at (push_at bs i n) k ≡ (if k == i then n ∷ bucket_at bs i else bucket_at bs k)
unfolding push_at
bucket_at-push_at [] i n k h = absurd (omega arith)
bucket_at-push_at (b ∷ bs) zero n zero h = refl
bucket_at-push_at (b ∷ bs) zero n (suc k) h = ground arith
bucket_at-push_at (b ∷ bs) (suc i) n zero h = ground arith
bucket_at-push_at (b ∷ bs) (suc i) n (suc k) h =
    bucket_at-push_at bs i n k (omega arith) ∙ ground arith

pub length-replace_at :
    (bs : List (List Node)) (i : ℕ) (c : List Node) → length (replace_at bs i c) ≡ length bs
unfolding replace_at
length-replace_at [] i c = refl
length-replace_at (b ∷ bs) zero c = refl
length-replace_at (b ∷ bs) (suc i) c = ap suc (length-replace_at bs i c)

pub bucket_at-replace_at :
    (bs : List (List Node)) (i : ℕ) (c : List Node) (k : ℕ)
    → i < length bs
    → bucket_at (replace_at bs i c) k ≡ (if k == i then c else bucket_at bs k)
unfolding replace_at
bucket_at-replace_at [] i c k h = absurd (omega arith)
bucket_at-replace_at (b ∷ bs) zero c zero h = refl
bucket_at-replace_at (b ∷ bs) zero c (suc k) h = ground arith
bucket_at-replace_at (b ∷ bs) (suc i) c zero h = ground arith
bucket_at-replace_at (b ∷ bs) (suc i) c (suc k) h =
    bucket_at-replace_at bs i c k (omega arith) ∙ ground arith

pub count-replace_at :
    (bs : List (List Node)) (i : ℕ) (c : List Node)
    → i < length bs
    → count_nodes (replace_at bs i c) + length (bucket_at bs i) ≡ count_nodes bs + length c
unfolding replace_at
count-replace_at [] i c h = absurd (omega arith)
count-replace_at (b ∷ bs) zero c h = omega arith
count-replace_at (b ∷ bs) (suc i) c h = omega (arith, count-replace_at bs i c (omega arith))

module _ (hash : Value → ℕ) (compare : Value → Value → Bool) where
  -- No later node of a chain has a key equal to that of an earlier one.
  abbrev pub Unique : List Node → Type 0
  Unique [] = Unit {0}
  Unique (n ∷ ns) = (find_node hash compare n.key ns ≡ none) × Unique ns

  -- A node stands in the chain of its key's hash, which it keeps.
  abbrev pub IsIn : ℕ → ℕ → List Node → Type 0
  IsIn size i b = All (λ n. (n.hash ≡ hash n.key) × (n.hash % size ≡ i)) b

  pub record IsChain (size i : ℕ) (b : List Node) : Type 0 where
    pub placed : IsIn size i b
    pub unique : Unique b

  pub record IsTable (t : Table) : Type 0 where
    pub size : length t.buckets ≡ t.total_buckets
    pub chains : (i : ℕ) → i < t.total_buckets → IsChain t.total_buckets i (bucket_at t.buckets i)
    pub count : t.total_nodes ≡ count_nodes t.buckets
    pub load : t.total_nodes ≤ 2 * t.total_buckets

  -- What `lookup` finds in buckets of a given number.
  abbrev pub get : ℕ → List (List Node) → Value → Option Node
  get size bs j = find_node hash compare j (bucket_at bs (hash j % size))

  pub not-match : (j : Value) (n : Node) → (n.hash ≡ hash j → ⊥) → is_match hash compare j n ≡ false
  unfolding is_match
  not-match j n h = ground arith

  pub find_node-cons :
      (j : Value) (n : Node) (ns : List Node)
      → find_node hash compare j (n ∷ ns)
        ≡ (if is_match hash compare j n then some n else find_node hash compare j ns)
  unfolding find_node
  find_node-cons j n ns = refl

  -- A pushed node is found by the keys that match it, and hides no other.
  pub get-push_at :
      (size : ℕ) (bs : List (List Node)) (n : Node) (j : Value)
      → 0 < size
      → length bs ≡ size
      → get size (push_at bs (n.hash % size) n) j
        ≡ (if is_match hash compare j n then some n else get size bs j)
  unfolding find_node
  get-push_at size bs n j pos len = elim (Bool-cases (hash j % size == n.hash % size)) [
    | inl same ↦
        ap (find_node hash compare j)
          (bucket_at-push_at bs (n.hash % size) n (hash j % size) (grind arith))
        ∙ rw same (
            ap
              (λ b.
                if is_match hash compare j n
                then some n
                else find_node hash compare j (bucket_at bs b))
              (ground arith))
    | inr other ↦
        ap (find_node hash compare j)
          (bucket_at-push_at bs (n.hash % size) n (hash j % size) (grind arith))
        ∙ rw (other, not-match j n (λ e. ground (arith, ap (λ h. h % size) e)))
  ]

  abbrev pub Chains : ℕ → List (List Node) → Type 0
  Chains size bs = (i : ℕ) → i < size → IsChain size i (bucket_at bs i)

  -- A node whose key is not there yet can be pushed.
  pub Chains-push_at :
      (size : ℕ) (bs : List (List Node)) (n : Node)
      → 0 < size
      → length bs ≡ size
      → n.hash ≡ hash n.key
      → get size bs n.key ≡ none
      → Chains size bs
      → Chains size (push_at bs (n.hash % size) n)
  Chains-push_at size bs n pos len e absent ch i h =
      let at = bucket_at-push_at bs (n.hash % size) n i (grind arith) in
      elim (Bool-cases (i == n.hash % size)) [
        | inl same ↦
            let here = ch (n.hash % size) (grind arith) in
            rw (at, same)
              (record {
                placed = (
                  (e, ground arith),
                  subst (λ k. IsIn size k (bucket_at bs (n.hash % size))) (ground arith)
                      here.placed,
                );
                unique = (
                  subst (λ k. find_node hash compare n.key (bucket_at bs (k % size)) ≡ none) (sym e)
                      absent,
                  here.unique,
                );
              })
        | inr other ↦ rw (at, other) (ch i h)
      ]

  pub Chains-replace_at :
      (size : ℕ) (bs : List (List Node)) (i : ℕ) (c : List Node)
      → i < size
      → length bs ≡ size
      → IsChain size i c
      → Chains size bs
      → Chains size (replace_at bs i c)
  Chains-replace_at size bs i c lt len new ch k h =
      let at = bucket_at-replace_at bs i c k (omega arith) in
      elim (Bool-cases (k == i)) [
        | inl same ↦ rw (at, same) (subst (λ x. IsChain size x c) (ground arith) new)
        | inr other ↦ rw (at, other) (ch k h)
      ]
