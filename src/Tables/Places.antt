-- ===== src/Tables/Places.antt =====
-- The nodes of all the buckets, and the place where a key is found among them.
use librep.Prelude.{
  ℕ, suc, ◌+◌, ◌-◌, ◌%◌, ◌<◌, ◌≡◌, refl, ap, sym, Bool, true, false, ◌&&◌, Option, none, some, List,
  [], ◌∷◌, ◌++◌, length, leb, ltb, ◌==◌, if◌then◌else◌, arith, ◌∙◌, Bool-cases, inl, inr,
  All-append,
}
use mathlib.Core.Path.{subst}
use librep.Value.{Value}
use librep.Tables.{Node, bucket_at, is_match, find_node}
use librep.Tables.Buckets.{Hashing, Unique, IsIn, IsChain, not-match}
use librep.Tables.Moving.{flat, find, Hashed}

abbrev or_else : Option Node → Option Node → Option Node
or_else none o = o
or_else (some n) o = some n

module _ (hash : Value → ℕ) (compare : Value → Value → Bool) (laws : Hashing hash compare) where
  -- Chains that stand at the places from `b` on.
  abbrev pub From : ℕ → ℕ → List (List Node) → Type 0
  From size b bs = (k : ℕ) → k < length bs → IsChain hash compare size (b + k) (bucket_at bs k)

  find-elsewhere :
      (size i : ℕ) (ns : List Node) (j : Value)
      → IsIn hash compare size i ns
      → (hash j % size ≡ i → ⊥)
      → find hash compare j ns ≡ none
  unfolding find_node
  find-elsewhere size i [] j p h = refl
  find-elsewhere size i (n ∷ ns) j ((en, at), p) h =
      rw (not-match hash compare j n (λ e. h (ap (λ x. x % size) (sym e) ∙ at)))
        (find-elsewhere size i ns j p h)

  find-append :
      (j : Value) (xs ys : List Node)
      → find hash compare j (xs ++ ys) ≡ or_else (find hash compare j xs) (find hash compare j ys)
  unfolding find_node
  find-append j [] ys = refl
  find-append j (x ∷ xs) ys = elim (Bool-cases (is_match hash compare j x)) [
    | inl e ↦ rw e
    | inr e ↦ rw e (find-append j xs ys)
  ]

  From-tail :
      (size b : ℕ) (c : List Node) (bs : List (List Node))
      → From size b (c ∷ bs)
      → From size (b + 1) bs
  From-tail size b c bs f k h =
      subst (λ x. IsChain hash compare size x (bucket_at bs k)) (omega arith)
        (f (suc k) (omega arith))

  From-head :
      (size b : ℕ) (c : List Node) (bs : List (List Node))
      → From size b (c ∷ bs)
      → IsChain hash compare size b c
  From-head size b c bs f =
      subst (λ x. IsChain hash compare size x c) (omega arith) (f 0 (omega arith))

  -- Where place `i` of the buckets from `b` on is, if anywhere.
  pub at_place : ℕ → List (List Node) → Value → ℕ → Option Node
  at_place b bs j i =
      if leb b i && ltb i (b + length bs) then find hash compare j (bucket_at bs (i - b)) else none

  at_place-below :
      (b : ℕ) (bs : List (List Node)) (j : Value) (i : ℕ) → i < b → at_place b bs j i ≡ none
  unfolding at_place
  at_place-below b bs j i h = ground arith

  pub at_place-nil : (b : ℕ) (j : Value) (i : ℕ) → at_place b [] j i ≡ none
  unfolding at_place find_node
  at_place-nil b j i = elim (Bool-cases (leb b i && ltb i (b + 0))) [
    | inl e ↦ absurd (ground arith)
    | inr e ↦ rw e
  ]

  at_place-head :
      (b : ℕ) (c : List Node) (bs : List (List Node)) (j : Value)
      → at_place b (c ∷ bs) j b ≡ find hash compare j c
  unfolding at_place
  at_place-head b c bs j =
      let inside : (leb b b && ltb b (b + suc (length bs))) ≡ true = ground arith in
      let none_before : b - b ≡ 0 = omega arith in
      rw inside (ap (λ k. find hash compare j (bucket_at (c ∷ bs) k)) none_before)

  at_place-tail :
      (b : ℕ) (c : List Node) (bs : List (List Node)) (j : Value) (i : ℕ)
      → (i ≡ b → ⊥)
      → at_place b (c ∷ bs) j i ≡ at_place (b + 1) bs j i
  unfolding at_place
  at_place-tail b c bs j i h = elim (Bool-cases (leb (b + 1) i && ltb i (b + 1 + length bs))) [
    | inl e ↦
        let inside : (leb b i && ltb i (b + suc (length bs))) ≡ true = ground arith in
        rw (e, inside) (ap (λ k. find hash compare j (bucket_at (c ∷ bs) k)) (after e))
    | inr e ↦
        let outside : (leb b i && ltb i (b + suc (length bs))) ≡ false = ground arith in
        rw (e, outside)
  ]
    where
      after : (leb (b + 1) i && ltb i (b + 1 + length bs)) ≡ true → i - b ≡ suc (i - (b + 1))
      after e = ground arith

  -- Place `i` of all the buckets.
  pub at_place-all :
      (bs : List (List Node)) (j : Value) (i : ℕ)
      → i < length bs
      → at_place 0 bs j i ≡ find hash compare j (bucket_at bs i)
  unfolding at_place
  at_place-all bs j i h =
      let inside : (leb 0 i && ltb i (0 + length bs)) ≡ true = ground arith in
      let all : i - 0 ≡ i = omega arith in
      rw inside (ap (λ k. find hash compare j (bucket_at bs k)) all)

  -- Among all nodes a key is found in the chain of its hash.
  pub find-flat :
      (size b : ℕ) (bs : List (List Node)) (j : Value)
      → From size b bs
      → find hash compare j (flat bs) ≡ at_place b bs j (hash j % size)
  unfolding flat
  find-flat size b [] j f = find_nil j ∙ sym (at_place-nil b j (hash j % size))
    where
      find_nil : (j : Value) → find hash compare j [] ≡ none
      find_nil j = unfold find_node in refl
  find-flat size b (c ∷ bs) j f =
      let ih = find-flat size (b + 1) bs j (From-tail size b c bs f) in
      let i = hash j % size in
      elim (Bool-cases (i == b)) [
        | inl same ↦
            let e : i ≡ b = ground arith in
            find-append j c (flat bs)
            ∙ rw (ih ∙ at_place-below (b + 1) bs j i (ground arith))
                (or_none (find hash compare j c))
            ∙ sym (ap (at_place b (c ∷ bs) j) e ∙ at_place-head b c bs j)
        | inr other ↦
            let ne : i ≡ b → ⊥ = ground arith in
            find-append j c (flat bs)
            ∙ rw (find-elsewhere size b c j (From-head size b c bs f).placed ne) ih
            ∙ sym (at_place-tail b c bs j i ne)
      ]
    where
      or_none : (o : Option Node) → or_else o none ≡ o
      or_none none = refl
      or_none (some n) = refl

  Hashed-of :
      (size i : ℕ) (ns : List Node) → IsIn hash compare size i ns → Hashed hash compare laws ns
  Hashed-of size i [] p = tt
  Hashed-of size i (n ∷ ns) ((e, at), p) = (e, Hashed-of size i ns p)

  pub Hashed-flat :
      (size b : ℕ) (bs : List (List Node)) → From size b bs → Hashed hash compare laws (flat bs)
  unfolding flat
  Hashed-flat size b [] f = tt
  Hashed-flat size b (c ∷ bs) f =
      All-append (λ n. n.hash ≡ hash n.key) c (flat bs)
        (Hashed-of size b c (From-head size b c bs f).placed)
        (Hashed-flat size (b + 1) bs (From-tail size b c bs f))

  Unique-append :
      (size i : ℕ) (xs ys : List Node)
      → IsIn hash compare size i xs
      → Unique hash compare xs
      → Unique hash compare ys
      → ((j : Value) → hash j % size ≡ i → find hash compare j ys ≡ none)
      → Unique hash compare (xs ++ ys)
  Unique-append size i [] ys p u v apart = v
  Unique-append size i (x ∷ xs) ys ((e, at), p) (out, u) v apart = (
    find-append x.key xs ys ∙ rw out (apart x.key (ap (λ h. h % size) (sym e) ∙ at)),
    Unique-append size i xs ys p u v apart,
  )

  pub Unique-flat :
      (size b : ℕ) (bs : List (List Node)) → From size b bs → Unique hash compare (flat bs)
  unfolding flat
  Unique-flat size b [] f = tt
  Unique-flat size b (c ∷ bs) f =
      let h = From-head size b c bs f in
      let t = From-tail size b c bs f in
      Unique-append size b c (flat bs) h.placed h.unique (Unique-flat size (b + 1) bs t) (λ j e.
        find-flat size (b + 1) bs j t ∙ at_place-below (b + 1) (bs) j (hash j % size) (omega arith))
