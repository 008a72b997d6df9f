-- ===== src/Tables/Moving.antt =====
-- Nodes moved to other buckets one by one, as a larger table takes them.
use librep.Prelude.{
  ℕ, ◌+◌, ◌%◌, ◌<◌, ◌≡◌, refl, ap, sym, Bool, true, false, Option, none, some, List, [], ◌∷◌, ◌++◌,
  length, if◌then◌else◌, arith, All, ◌∙◌, Bool-cases, inl, inr, length-append,
}
use librep.Value.{Value}
use librep.Tables.{Node, push_at, move_nodes, move_buckets, is_match, find_node}
use librep.Tables.Buckets.{
  Hashing, count_nodes, count-push_at, length-push_at, Unique, get, get-push_at, Chains,
  Chains-push_at,
}

unfoldable pub flat : List (List Node) → List Node
flat [] = []
flat (b ∷ bs) = b ++ flat bs

pub length-flat : (bs : List (List Node)) → length (flat bs) ≡ count_nodes bs
unfolding flat
length-flat [] = refl
length-flat (b ∷ bs) = length-append b (flat bs) ∙ ap (λ k. length b + k) (length-flat bs)

move_nodes-append :
    (size : ℕ) (ns ms : List Node) (bins : List (List Node))
    → move_nodes size (ns ++ ms) bins ≡ move_nodes size ms (move_nodes size ns bins)
unfolding move_nodes
move_nodes-append size [] ms bins = refl
move_nodes-append size (n ∷ ns) ms bins =
    move_nodes-append size ns ms (push_at bins (n.hash % size) n)

pub move_buckets-flat :
    (size : ℕ) (bs bins : List (List Node))
    → move_buckets size bs bins ≡ move_nodes size (flat bs) bins
unfolding move_buckets flat move_nodes
move_buckets-flat size [] bins = refl
move_buckets-flat size (b ∷ bs) bins =
    move_buckets-flat size bs (move_nodes size b bins)
    ∙ sym (move_nodes-append size b (flat bs) bins)

pub length-move_nodes :
    (size : ℕ) (ns : List Node) (bins : List (List Node))
    → length (move_nodes size ns bins) ≡ length bins
unfolding move_nodes
length-move_nodes size [] bins = refl
length-move_nodes size (n ∷ ns) bins =
    length-move_nodes size ns (push_at bins (n.hash % size) n)
    ∙ length-push_at bins (n.hash % size) n

pub count-move_nodes :
    (size : ℕ) (ns : List Node) (bins : List (List Node))
    → 0 < size
    → length bins ≡ size
    → count_nodes (move_nodes size ns bins) ≡ count_nodes bins + length ns
unfolding move_nodes
count-move_nodes size [] bins pos len = omega arith
count-move_nodes size (n ∷ ns) bins pos len =
    let i = n.hash % size in
    omega (
      arith,
      count-move_nodes size ns (push_at bins i n) pos (length-push_at bins i n ∙ len),
      count-push_at bins i n (grind arith),
    )

module _ (hash : Value → ℕ) (compare : Value → Value → Bool) where
  abbrev pub find : Value → List Node → Option Node
  find = find_node hash compare

  -- The node that the last push of a match leaves on top.
  unfoldable pub later : Value → List Node → Option Node → Option Node
  later j [] found = found
  later j (n ∷ ns) found = later j ns (if is_match hash compare j n then some n else found)

  pub get-move_nodes :
      (size : ℕ) (ns : List Node) (bins : List (List Node)) (j : Value)
      → 0 < size
      → length bins ≡ size
      → get hash compare size (move_nodes size ns bins) j
        ≡ later j ns (get hash compare size bins j)
  unfolding move_nodes later
  get-move_nodes size [] bins j pos len = refl
  get-move_nodes size (n ∷ ns) bins j pos len =
      get-move_nodes size ns (push_at bins (n.hash % size) n) j pos
        (length-push_at bins (n.hash % size) n ∙ len)
      ∙ ap (later j ns) (get-push_at hash compare size bins n j pos len)

  later-none :
      (j : Value) (ns : List Node) (found : Option Node)
      → find j ns ≡ none
      → later j ns found ≡ found
  unfolding later find_node
  later-none j [] found h = refl
  later-none j (n ∷ ns) found h = elim (Bool-cases (is_match hash compare j n)) [
    | inl e ↦ absurd (cc (rw e at h))
    | inr e ↦ rw e (later-none j ns found (rw e at h))
  ]

module _ (hash : Value → ℕ) (compare : Value → Value → Bool) (laws : Hashing hash compare) where
  -- A key that matches a node has its hash and is equal to its key.
  pub match-cong :
      (j : Value) (n m : Node)
      → n.hash ≡ hash n.key
      → m.hash ≡ hash m.key
      → is_match hash compare j n ≡ true
      → is_match hash compare n.key m ≡ false
      → is_match hash compare j m ≡ false
  unfolding is_match
  match-cong j n m en em h k =
      ground (arith, laws.symmetric j n.key, laws.transitive n.key j m.key, laws.agrees j n.key)

  pub match-flip :
      (n m : Node)
      → n.hash ≡ hash n.key
      → m.hash ≡ hash m.key
      → is_match hash compare n.key m ≡ false
      → is_match hash compare m.key n ≡ false
  unfolding is_match
  match-flip n m en em h = ground (arith, laws.symmetric m.key n.key, laws.agrees m.key n.key)

  abbrev pub Hashed : List Node → Type 0
  Hashed ns = All (λ n. n.hash ≡ hash n.key) ns

  pub find-cong :
      (j : Value) (n : Node) (ns : List Node)
      → n.hash ≡ hash n.key
      → Hashed ns
      → is_match hash compare j n ≡ true
      → find hash compare n.key ns ≡ none
      → find hash compare j ns ≡ none
  unfolding find_node
  find-cong j n [] en hs h k = refl
  find-cong j n (m ∷ ms) en (em, hs) h k = elim (Bool-cases (is_match hash compare n.key m)) [
    | inl e ↦ absurd (cc (rw e at k))
    | inr e ↦ rw (match-cong j n m en em h e) (find-cong j n ms en hs h (rw e at k))
  ]

  pub later-find :
      (j : Value) (ns : List Node)
      → Hashed ns
      → Unique hash compare ns
      → later hash compare j ns none ≡ find hash compare j ns
  unfolding later find_node
  later-find j [] hs u = refl
  later-find j (n ∷ ns) (en, hs) (out, u) = elim (Bool-cases (is_match hash compare j n)) [
    | inl e ↦ rw e (later-none hash compare j ns (some n) (find-cong j n ns en hs e out))
    | inr e ↦ rw e (later-find j ns hs u)
  ]

  unfoldable pub Absent : ℕ → List (List Node) → List Node → Type 0
  Absent size bins ns = All (λ m. get hash compare size bins m.key ≡ none) ns

  Absent-push :
      (size : ℕ) (bins : List (List Node)) (n : Node) (ns : List Node)
      → 0 < size
      → length bins ≡ size
      → n.hash ≡ hash n.key
      → Hashed ns
      → find hash compare n.key ns ≡ none
      → Absent size bins ns
      → Absent size (push_at bins (n.hash % size) n) ns
  unfolding find_node Absent
  Absent-push size bins n [] pos len en hs out a = tt
  Absent-push size bins n (m ∷ ms) pos len en (em, hs) out (am, a) =
      elim (Bool-cases (is_match hash compare n.key m)) [
        | inl e ↦ absurd (cc (rw e at out))
        | inr e ↦ (
          get-push_at hash compare size bins n m.key pos len ∙ rw (match-flip n m en em e) am,
          Absent-push size bins n ms pos len en hs (rw e at out) a,
        )
      ]

  pub Chains-move_nodes :
      (size : ℕ) (ns : List Node) (bins : List (List Node))
      → 0 < size
      → length bins ≡ size
      → Hashed ns
      → Unique hash compare ns
      → Absent size bins ns
      → Chains hash compare size bins
      → Chains hash compare size (move_nodes size ns bins)
  unfolding move_nodes Absent
  Chains-move_nodes size [] bins pos len hs u a ch = ch
  Chains-move_nodes size (n ∷ ns) bins pos len (en, hs) (out, u) (an, a) ch =
      let bins' = push_at bins (n.hash % size) n in
      Chains-move_nodes size ns bins' pos (length-push_at bins (n.hash % size) n ∙ len) hs u
        (Absent-push size bins n ns pos len en hs out a)
        (Chains-push_at hash compare size bins n pos len en an ch)
