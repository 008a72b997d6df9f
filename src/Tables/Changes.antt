-- ===== src/Tables/Changes.antt =====
-- The changes of one chain: a node's value is set, or the node is unlinked.
use librep.Prelude.{
  ℕ, ◌+◌, ◌≡◌, refl, Bool, true, false, Option, none, some, List, [], ◌∷◌, length, if◌then◌else◌,
  arith, ◌∙◌, Bool-cases, inl, inr,
}
use mathlib.Core.Path.{ap₂}
use librep.Value.{Value}
use librep.Tables.{Node, is_match, find_node, set_value, unlink_node}
use librep.Tables.Buckets.{Hashing, Unique, IsChain}
use librep.Tables.Moving.{find, find-cong, Hashed}

abbrev pub value_of : Option Node → Option Value
value_of none = none
value_of (some n) = some n.value

abbrev pub found : Option Node → Bool
found none = false
found (some n) = true

module _ (hash : Value → ℕ) (compare : Value → Value → Bool) (laws : Hashing hash compare) where
  -- Two keys match the same nodes.
  match-key :
      (j k : Value) (n : Node)
      → n.hash ≡ hash n.key
      → is_match hash compare k n ≡ true
      → is_match hash compare j n ≡ compare j k
  unfolding is_match
  match-key j k n e h = ground (
    arith,
    laws.symmetric k n.key,
    laws.symmetric j k,
    laws.transitive j k n.key,
    laws.transitive j n.key k,
    laws.agrees j k,
    laws.agrees k n.key,
  )

  match-other :
      (j k : Value) (n : Node)
      → n.hash ≡ hash n.key
      → is_match hash compare k n ≡ false
      → is_match hash compare j n ≡ true
      → compare j k ≡ false
  unfolding is_match
  match-other j k n e h m =
      ground (arith, laws.symmetric j k, laws.transitive k j n.key, laws.agrees j k)

  -- Keys that compare equal find the same node.
  pub find-same :
      (j k : Value) (ns : List Node)
      → Hashed hash compare laws ns
      → compare j k ≡ true
      → find hash compare j ns ≡ find hash compare k ns
  unfolding find_node is_match
  find-same j k [] hs c = refl
  find-same j k (m ∷ ms) (e, hs) c =
      let same : is_match hash compare j m ≡ is_match hash compare k m = ground (
        arith,
        laws.symmetric j k,
        laws.transitive j k m.key,
        laws.transitive k j m.key,
        laws.agrees j k,
      ) in
      ap₂ (λ b o. if b then some m else o) same (find-same j k ms hs c)

  pub find-set_value :
      (j k v : Value) (ns : List Node)
      → Hashed hash compare laws ns
      → (n : Node) → find hash compare k ns ≡ some n
      → value_of (find hash compare j (set_value hash compare k v ns))
        ≡ (if compare j k then some v else value_of (find hash compare j ns))
  unfolding find_node set_value
  find-set_value j k v [] hs n f = cc
  find-set_value j k v (m ∷ ms) (e, hs) n f = elim (Bool-cases (is_match hash compare k m)) [
    | inl h ↦
        let same : is_match hash compare j (record m { value = v }) ≡ is_match hash compare j m =
          unchanged j v m in
        elim (Bool-cases (compare j k)) [
          | inl c ↦ rw (h, same, match-key j k m e h, c)
          | inr c ↦ rw (h, same, match-key j k m e h, c)
        ]
    | inr h ↦ elim (Bool-cases (is_match hash compare j m)) [
      | inl g ↦ rw (h, g, match-other j k m e h g)
      | inr g ↦ rw (h, g, find-set_value j k v ms hs n (rw h at f))
    ]
  ]
    where
      unchanged :
          (j v : Value) (m : Node)
          → is_match hash compare j (record m { value = v }) ≡ is_match hash compare j m
      unchanged j v m = unfold is_match in refl

  pub find-unlink_node :
      (j k : Value) (ns : List Node)
      → Hashed hash compare laws ns
      → Unique hash compare ns
      → (n : Node) → find hash compare k ns ≡ some n
      → value_of (find hash compare j (unlink_node hash compare k ns))
        ≡ (if compare j k then none else value_of (find hash compare j ns))
  unfolding find_node unlink_node
  find-unlink_node j k [] hs u n f = cc
  find-unlink_node j k (m ∷ ms) (e, hs) (out, u) n f =
      elim (Bool-cases (is_match hash compare k m)) [
        | inl h ↦ elim (Bool-cases (compare j k)) [
          | inl c ↦ rw (h, c, find-cong hash compare laws j m ms e hs (match-key j k m e h ∙ c) out)
          | inr c ↦ rw (h, match-key j k m e h, c)
        ]
        | inr h ↦ elim (Bool-cases (is_match hash compare j m)) [
          | inl g ↦ rw (h, g, match-other j k m e h g)
          | inr g ↦ rw (h, g, find-unlink_node j k ms hs u n (rw h at f))
        ]
      ]

  pub length-set_value :
      (k v : Value) (ns : List Node) → length (set_value hash compare k v ns) ≡ length ns
  unfolding set_value
  length-set_value k v [] = refl
  length-set_value k v (m ∷ ms) = ground (arith, length-set_value k v ms)

  pub length-unlink_node :
      (k : Value) (ns : List Node) (n : Node)
      → find hash compare k ns ≡ some n
      → length (unlink_node hash compare k ns) + 1 ≡ length ns
  unfolding unlink_node find_node
  length-unlink_node k [] n f = cc
  length-unlink_node k (m ∷ ms) n f = elim (Bool-cases (is_match hash compare k m)) [
    | inl h ↦ rw h (omega arith)
    | inr h ↦ rw h (omega (arith, length-unlink_node k ms n (rw h at f)))
  ]

  none-set_value :
      (j k v : Value) (ns : List Node)
      → find hash compare j ns ≡ none
      → find hash compare j (set_value hash compare k v ns) ≡ none
  unfolding find_node set_value is_match
  none-set_value j k v [] f = refl
  none-set_value j k v (m ∷ ms) f = ground (arith, none-set_value j k v ms)

  none-unlink_node :
      (j k : Value) (ns : List Node)
      → find hash compare j ns ≡ none
      → find hash compare j (unlink_node hash compare k ns) ≡ none
  unfolding find_node unlink_node
  none-unlink_node j k [] f = refl
  none-unlink_node j k (m ∷ ms) f = ground (arith, none-unlink_node j k ms)

  module _ (size i : ℕ) where
    pub IsChain-set_value :
        (k v : Value) (ns : List Node)
        → IsChain hash compare size i ns
        → IsChain hash compare size i (set_value hash compare k v ns)
    unfolding set_value
    IsChain-set_value k v [] c = c
    IsChain-set_value k v (m ∷ ms) c =
        let ih = IsChain-set_value k v ms (record { placed = c.placed.1; unique = c.unique.1 }) in
        elim (Bool-cases (is_match hash compare k m)) [
          | inl h ↦ rw h (record { placed = c.placed; unique = c.unique })
          | inr h ↦ rw h (record {
            placed = (c.placed.0, ih.placed);
            unique = (none-set_value m.key k v ms c.unique.0, ih.unique);
          })
        ]

    pub IsChain-unlink_node :
        (k : Value) (ns : List Node)
        → IsChain hash compare size i ns
        → IsChain hash compare size i (unlink_node hash compare k ns)
    unfolding unlink_node
    IsChain-unlink_node k [] c = c
    IsChain-unlink_node k (m ∷ ms) c =
        let ih = IsChain-unlink_node k ms (record { placed = c.placed.1; unique = c.unique.1 }) in
        elim (Bool-cases (is_match hash compare k m)) [
          | inl h ↦ rw h (record { placed = c.placed.1; unique = c.unique.1 })
          | inr h ↦ rw h (record {
            placed = (c.placed.0, ih.placed);
            unique = (none-unlink_node m.key k ms c.unique.0, ih.unique);
          })
        ]
