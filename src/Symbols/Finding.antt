-- ===== src/Symbols/Finding.antt =====
-- `find-symbol` after `intern`: a table from names to symbols.
use librep.Prelude.{
  ℕ, suc, ◌<◌, ◌≡◌, refl, sym, ap, ◌∙◌, Bool, true, false, List, [], ◌∷◌, arith, if◌then◌else◌,
  ◌==◌, Bool-cases, inl, inr, has, length, ◌⊎◌,
}
use librep.Value.{Addr, Value, null, nil, symbol, eq_self, Result, ok}
use librep.Symbols.{
  Symbols, c_text, same_text, chosen, buckets, bucket, place, find_symbol, link_symbol,
  intern_symbol, make_symbol, intern_found, intern,
}
use librep.Symbols.Chains.{Linked-agree, first_named}
use librep.Symbols.Interning.{IsObarray, joined, place-lt, link_symbol-IsObarray, link_symbol-kept}
use librep.Symbols.Joining.{
  same_bytes_self, first_named-agree, OneEach, first_named-nil, Bounded, find_symbol-first_named,
  link_symbol-find,
}

-- A new symbol is in no chain, and its link is 0.
make_symbol-IsObarray :
    (s : Symbols) (name : List ℕ) (o : Addr) (css : ℕ → List Addr)
    → IsObarray s o css
    → IsObarray (make_symbol s name).1 o css
unfolding make_symbol
make_symbol-IsObarray s name o css v = record {
  linked = λ h i.
      Linked-agree s.next (make_symbol s name).1.next (bucket s o h) (css h)
        (λ a m. ground (arith, (v.made h a i m).1)) (v.linked h i);
  distinct = v.distinct;
  placed = λ h a i m. rw (old_name h a i m) (v.placed h a i m);
  made = λ h a i m.
      let (linked, below) = v.made h a i m in
      let other : (a == s.made) ≡ false = ground arith in rw other (linked, omega arith);
  ended = v.ended;
}
  where
    old_name :
        (h a : ℕ)
        → h < length (buckets s o)
        → has a (css h) ≡ true
        → (if a == s.made then name else s.name a) ≡ s.name a
    old_name h a i m = ground (arith, (v.made h a i m).1)

make_symbol-find :
    (n : ℕ) (s : Symbols) (name : List ℕ) (ob : Value) (css : ℕ → List Addr)
    → IsObarray s (chosen s ob) css
    → 0 < length (buckets s (chosen s ob))
    → Bounded n (length (buckets s (chosen s ob))) css
    → (text : List ℕ) → find_symbol n (make_symbol s name).1 text ob ≡ find_symbol n s text ob
unfolding make_symbol
make_symbol-find n s name ob css v size f text =
    let i = place-lt text (length (buckets s (chosen s ob))) size in
    let h = place text (length (buckets s (chosen s ob))) in
    find_symbol-first_named n (make_symbol s name).1 text ob css
      (make_symbol-IsObarray s name (chosen s ob) css v) size f
    ∙ ap ok (
        first_named-agree (same_text text) s.name (make_symbol s name).1.name (css h)
          (λ a m. ground (arith, (v.made h a i m).1)))
    ∙ sym (find_symbol-first_named n s text ob css v size f)

-- Interning a symbol that has no link.
intern_symbol-new :
    (s : Symbols) (a : Addr) (ob : Value)
    → s.next a ≡ null
    → 0 < length (buckets s (chosen s ob))
    → intern_symbol s (symbol a) ob ≡ (ok (symbol a), link_symbol s a (chosen s ob))
unfolding intern_symbol
intern_symbol-new s a ob new size =
    let some_bucket : (length (buckets s (chosen s ob)) == 0) ≡ false = ground arith in
    rw (new, eq_self null, some_bucket) refl

-- The result of `intern`, and the table after it.
pub record Interned (n : ℕ) (s : Symbols) (name : List ℕ) (ob : Value)
    (out : Result Value × Symbols) : Type 0 where
  pub chains : ℕ → List Addr
  pub valid : IsObarray out.1 (chosen s ob) chains
  pub result : Addr
  pub returns : out.0 ≡ ok (symbol result)
  pub found : find_symbol (suc n) out.1 name ob ≡ ok (symbol result)
  pub others :
      (text : List ℕ)
      → same_text text name ≡ false
      → find_symbol (suc n) out.1 text ob ≡ find_symbol n s text ob
  pub unique : OneEach out.1 (chosen s ob) chains
  pub origin :
      ((find_symbol n s name ob ≡ ok (symbol result)) × (out.1 ≡ s))
      ⊎ ((find_symbol n s name ob ≡ ok nil) × (result ≡ s.made) × (out.1.name result ≡ name))

first_named-cases :
    (same : List ℕ → Bool) (name : Addr → List ℕ) (cs : List Addr)
    → (first_named same name cs ≡ nil) ⊎ ((a : Addr) × (first_named same name cs ≡ symbol a))
first_named-cases same name [] = inl refl
first_named-cases same name (a ∷ cs) = elim (Bool-cases (same (name a))) [
  | inl e ↦ inr (a, rw e refl)
  | inr e ↦ rw e (first_named-cases same name cs)
]

module _ (n : ℕ) (s : Symbols) (name : List ℕ) (ob : Value) (css : ℕ → List Addr)
    (v : IsObarray s (chosen s ob) css) (size : 0 < length (buckets s (chosen s ob)))
    (f : Bounded n (length (buckets s (chosen s ob))) css) (one : OneEach s (chosen s ob) css) where
  abbrev ob_used : Addr
  ob_used = chosen s ob

  abbrev fresh : Symbols
  fresh = (make_symbol s name).1

  more : Bounded (suc n) (length (buckets s ob_used)) css
  more h i = omega (arith, f h i)

  intern-new :
      find_symbol n s name ob ≡ ok nil
      → intern n s name ob ≡ (ok (symbol s.made), link_symbol fresh s.made ob_used)
  unfolding intern intern_found make_symbol
  intern-new e = rw e (intern_symbol-new fresh s.made ob (ground arith) size)

  intern-old :
      (a : Addr) → find_symbol n s name ob ≡ ok (symbol a) → intern n s name ob ≡ (ok (symbol a), s)
  unfolding intern intern_found
  intern-old a e = rw e refl

  -- A name that is not found is the name of no symbol of the obarray.
  clash :
      first_named (same_text name) s.name (css (place name (length (buckets s ob_used)))) ≡ nil
      → (i : ℕ) (b : Addr) → i < length (buckets s ob_used)
      → has b (css i) ≡ true
      → s.name b ≡ name
      → ⊥
  clash none_found i b p m e =
      let here : place name (length (buckets s ob_used)) ≡ i =
        ap (λ t. place t (length (buckets s ob_used))) (sym e) ∙ v.placed i b p m in
      let other = first_named-nil (same_text name) s.name (css i) b (rw here at none_found) m in
      cc (same_bytes_self (c_text name), rw e at other)

  fresh-OneEach :
      first_named (same_text name) s.name (css (place name (length (buckets s ob_used)))) ≡ nil
      → OneEach fresh ob_used (joined fresh s.made ob_used css)
  unfolding make_symbol
  fresh-OneEach none_found h i a b p q x y e = elim (Bool-cases (a == s.made)) [
    | inl am ↦ elim (Bool-cases (b == s.made)) [
      | inl bm ↦ ground arith
      | inr bo ↦ absurd (clash none_found i b q (ground arith) (sym (rw (am, bo) at e)))
    ]
    | inr ao ↦ elim (Bool-cases (b == s.made)) [
      | inl bm ↦ absurd (clash none_found h a p (ground arith) (rw (ao, bm) at e))
      | inr bo ↦ one h i a b p q (ground arith) (ground arith) (rw (ao, bo) at e)
    ]
  ]

  fresh-Interned :
      first_named (same_text name) s.name (css (place name (length (buckets s ob_used)))) ≡ nil
      → Interned n s name ob (ok (symbol s.made), link_symbol fresh s.made ob_used)
  unfolding make_symbol
  fresh-Interned none_found =
      let v' = make_symbol-IsObarray s name ob_used css v in
      let (own, rest) =
        link_symbol-find n fresh s.made ob css v' size f (ground arith) (ground arith) in
      let named : (if s.made == s.made then name else s.name s.made) ≡ name = ground arith in
      let (names, _, sizes) =
        link_symbol-kept fresh s.made ob_used css v' size (ground arith) (ground arith) in
      record {
        chains = joined fresh s.made ob_used css;
        valid =
            link_symbol-IsObarray fresh s.made ob_used css v' size (ground arith) (ground arith);
        result = s.made;
        returns = refl;
        found = rw named at own;
        others = λ text other.
            rest text (rw named other) ∙ make_symbol-find n s name ob css v size f text;
        unique = rw (names, sizes) (fresh-OneEach none_found);
        origin = inr (
          find_symbol-first_named n s name ob css v size f ∙ ap ok none_found,
          refl,
          rw names named,
        );
      }

  -- `intern` returns the symbol that `find-symbol` finds by the name and changes nothing, or, where it
  -- finds none, a new symbol of that name. `find-symbol` then finds the result by the name, and by
  -- another text what it found before. The obarray stays a table of symbols by name, in which no two
  -- symbols have the same name. It is one before, no chain is longer than the fuel, and the obarray has
  -- a bucket.
  pub intern-Interned : Interned n s name ob (intern n s name ob)
  intern-Interned =
      let first = find_symbol-first_named n s name ob css v size f in
      elim (first_named-cases (same_text name) s.name
        (css (place name (length (buckets s ob_used))))) [
          | inl none_found ↦ rw (intern-new (first ∙ ap ok none_found)) (fresh-Interned none_found)
          | inr (a, e) ↦ rw (intern-old a (first ∙ ap ok e)) (record {
            chains = css;
            valid = v;
            result = a;
            returns = refl;
            found = find_symbol-first_named (suc n) s name ob css v size more ∙ ap ok e;
            others = λ text other.
                find_symbol-first_named (suc n) s text ob css v size more
                ∙ sym (find_symbol-first_named n s text ob css v size f);
            unique = one;
            origin = inl (first ∙ ap ok e, refl);
          })
        ]
