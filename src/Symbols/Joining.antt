-- ===== src/Symbols/Joining.antt =====
-- `find-symbol` by the chains of an obarray, and after a symbol has joined its chain.
use librep.Prelude.{
  ℕ, suc, ◌≤◌, ◌<◌, ◌≡◌, refl, sym, ap, ◌∙◌, Bool, true, false, List, none, some, [], ◌∷◌, arith,
  ◌==◌, Bool-cases, inl, inr, has, length,
}
use librep.Value.{Addr, Value, null, nil, symbol, ok}
use librep.Vectors.{only_vector}
use librep.Symbols.{
  Symbols, c_text, same_bytes, same_text, chosen, buckets, bucket, place, find_symbol, link_symbol,
}
use librep.Symbols.Chains.{first_named, find_in-first_named}
use librep.Symbols.Interning.{IsObarray, joined, place-lt, link_symbol-IsObarray, link_symbol-kept}

pub same_bytes_self : (xs : List ℕ) → same_bytes xs xs ≡ true
same_bytes_self [] = refl
same_bytes_self (x ∷ xs) = ground (arith, same_bytes_self xs)

pub first_named-agree :
    (same : List ℕ → Bool) (name name' : Addr → List ℕ) (cs : List Addr)
    → ((a : Addr) → has a cs ≡ true → name' a ≡ name a)
    → first_named same name' cs ≡ first_named same name cs
first_named-agree same name name' [] h = refl
first_named-agree same name name' (a ∷ cs) h =
    rw (h a (ground arith), first_named-agree same name name' cs (λ b i. h b (ground arith))) refl

-- No two symbols of the obarray have the same name.
abbrev pub OneEach : Symbols → Addr → (ℕ → List Addr) → Type 0
OneEach s o css =
    (h i : ℕ) (a b : Addr)
    → h < length (buckets s o)
    → i < length (buckets s o)
    → has a (css h) ≡ true
    → has b (css i) ≡ true
    → s.name a ≡ s.name b
    → a ≡ b

pub first_named-nil :
    (same : List ℕ → Bool) (name : Addr → List ℕ) (cs : List Addr) (b : Addr)
    → first_named same name cs ≡ nil
    → has b cs ≡ true
    → same (name b) ≡ false
first_named-nil same name [] b e h = absurd (ground arith)
first_named-nil same name (a ∷ cs) b e h = elim (Bool-cases (same (name a))) [
  | inl k ↦ absurd (cc (rw k at e))
  | inr k ↦ elim (Bool-cases (b == a)) [
    | inl q ↦ let eq_ba : b ≡ a = ground arith in rw eq_ba k
    | inr q ↦ first_named-nil same name cs b (rw k at e) (ground arith)
  ]
]

-- Every chain is at most `n` long.
abbrev pub Bounded : ℕ → ℕ → (ℕ → List Addr) → Type 0
Bounded n size css = (h : ℕ) → h < size → length (css h) ≤ n

pub find_symbol-first_named :
    (n : ℕ) (s : Symbols) (name : List ℕ) (ob : Value) (css : ℕ → List Addr)
    → IsObarray s (chosen s ob) css
    → 0 < length (buckets s (chosen s ob))
    → Bounded n (length (buckets s (chosen s ob))) css
    → find_symbol n s name ob
      ≡ ok (
          first_named (same_text name) s.name (css (place name (length (buckets s (chosen s ob))))))
unfolding find_symbol
find_symbol-first_named n s name ob css v size f =
    let h = place name (length (buckets s (chosen s ob))) in
    let i = place-lt name (length (buckets s (chosen s ob))) size in
    let some_bucket : (length (buckets s (chosen s ob)) == 0) ≡ false = ground arith in
    rw some_bucket (
      ap ok (
        find_in-first_named n (same_text name) s (bucket s (chosen s ob) h) (css h) (v.linked h i)
          (f h i)))

chosen-same : (s t : Symbols) (ob : Value) → t.obarray ≡ s.obarray → chosen t ob ≡ chosen s ob
chosen-same s t ob e = ap (λ d. elim (only_vector ob) [ none ↦ d | some a ↦ a ]) e

module _ (n : ℕ) (s : Symbols) (a : Addr) (ob : Value) (css : ℕ → List Addr)
    (v : IsObarray s (chosen s ob) css) (size : 0 < length (buckets s (chosen s ob)))
    (f : Bounded n (length (buckets s (chosen s ob))) css) (new : s.next a ≡ null)
    (is_made : a < s.made) where
  abbrev o : Addr
  o = chosen s ob

  abbrev linked : Symbols
  linked = link_symbol s a o

  find-link_symbol :
      (name : List ℕ)
      → find_symbol (suc n) linked name ob
        ≡ ok (
            first_named
              (same_text name)
              s.name
              (joined s a o css (place name (length (buckets s o)))))
  unfolding link_symbol
  find-link_symbol name =
      let (names, ob_same, sizes) = link_symbol-kept s a o css v size new is_made in
      let same : chosen linked ob ≡ o = chosen-same s linked ob ob_same in
      let css' = joined s a o css in
      let bound : Bounded (suc n) (length (buckets linked o)) css' =
        λ h i. ground (arith, f h (rw sizes at i)) in
      let found =
        find_symbol-first_named (suc n) linked name ob css'
          (rw same (link_symbol-IsObarray s a o css v size new is_made)) (rw (same, sizes) size)
          (rw same bound) in
      rw (same, sizes, names) at found

  -- A symbol that joins an obarray is found by its name, and another text finds what it found before.
  pub link_symbol-find :
      (find_symbol (suc n) linked (s.name a) ob ≡ ok (symbol a))
      × ((text : List ℕ)
          → same_text text (s.name a) ≡ false
          → find_symbol (suc n) linked text ob ≡ find_symbol n s text ob)
  link_symbol-find = (
    find-link_symbol (s.name a) ∙ own,
    (λ text other.
        find-link_symbol text
        ∙ rest text other (place text (length (buckets s o)))
        ∙ sym (find_symbol-first_named n s text ob css v size f)),
  )
    where
      own :
          ok (
            first_named
              (same_text (s.name a))
              s.name
              (joined s a o css (place (s.name a) (length (buckets s o)))))
          ≡ ok (symbol a)
      own = ground (arith, same_bytes_self (c_text (s.name a)))

      rest :
          (text : List ℕ)
          → same_text text (s.name a) ≡ false
          → (h : ℕ)
          → ok (first_named (same_text text) s.name (joined s a o css h))
            ≡ ok (first_named (same_text text) s.name (css h))
      rest text other h = elim (Bool-cases (h == place (s.name a) (length (buckets s o)))) [
        | inl e ↦ rw (e, other) refl
        | inr e ↦ rw e refl
      ]
