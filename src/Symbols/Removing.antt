-- ===== src/Symbols/Removing.antt =====
-- `unintern`: the symbol is out of its chain, and the obarray stays one.
use librep.Prelude.{
  ℕ, ◌≤◌, ◌<◌, ◌≡◌, refl, sym, ap, ◌∙◌, true, false, ◌&&◌, ◌||◌, not, List, [], ◌∷◌, arith,
  if◌then◌else◌, ◌==◌, Bool-cases, inl, inr, has, Distinct, length, turned_onto,
}
use librep.Value.{Addr, Value, null, undefined, symbol, eq, ok}
use librep.Symbols.{
  Symbols, chosen, buckets, bucket, set_bucket, set_next, place, unintern_loop, unintern,
}
use librep.Symbols.Chains.{Linked, Linked-agree}
use librep.Symbols.Interning.{IsObarray, place-lt, size-set_bucket, bucket-set_bucket}
use librep.Symbols.Turning.{without, Turned, unintern_loop-Turned}

-- The chains without a symbol: the chain of its name is turned round.
abbrev pub removed : Symbols → Addr → Addr → (ℕ → List Addr) → ℕ → List Addr
removed s a o css h =
    if h == place (s.name a) (length (buckets s o))
    then turned_onto (without a (css h)) []
    else css h

has-turned_onto :
    (b : Addr) (xs ys : List Addr) → has b (turned_onto xs ys) ≡ (has b xs || has b ys)
has-turned_onto b [] ys = refl
has-turned_onto b (x ∷ xs) ys = has-turned_onto b xs (x ∷ ys) ∙ ground arith

has-without : (b a : Addr) (cs : List Addr) → has b (without a cs) ≡ (has b cs && not (b == a))
has-without b a [] = refl
has-without b a (c ∷ cs) = elim (Bool-cases (c == a)) [
  | inl e ↦ rw e (ground (arith, has-without b a cs))
  | inr e ↦ rw e (ground (arith, has-without b a cs))
]

Distinct-without : (a : Addr) (cs : List Addr) → Distinct cs → Distinct (without a cs)
Distinct-without a [] d = tt
Distinct-without a (c ∷ cs) (out, d) = elim (Bool-cases (c == a)) [
  | inl e ↦ rw e (Distinct-without a cs d)
  | inr e ↦ rw e (ground (arith, has-without c a cs), Distinct-without a cs d)
]

Distinct-turned_onto :
    (xs ys : List Addr)
    → Distinct xs
    → Distinct ys
    → ((b : Addr) → has b xs ≡ true → has b ys ≡ false)
    → Distinct (turned_onto xs ys)
Distinct-turned_onto [] ys dx dy apart = dy
Distinct-turned_onto (x ∷ xs) ys (out, dx) dy apart =
    Distinct-turned_onto xs (x ∷ ys) dx (apart x (ground arith), dy)
      (λ b i. ground (arith, apart b))

module _ (n : ℕ) (s : Symbols) (a : Addr) (ob : Value) (css : ℕ → List Addr)
    (v : IsObarray s (chosen s ob) css) (size : 0 < length (buckets s (chosen s ob)))
    (f : (h : ℕ) → h < length (buckets s (chosen s ob)) → length (css h) ≤ n) where
  abbrev o : Addr
  o = chosen s ob

  abbrev here : ℕ
  here = place (s.name a) (length (buckets s o))

  abbrev emptied : Symbols
  emptied = set_bucket s o here undefined

  abbrev turned : Symbols
  turned = unintern_loop n a o here emptied (bucket s o here)

  inside : here < length (buckets s o)
  inside = place-lt (s.name a) (length (buckets s o)) size

  emptied-next : (emptied.next ≡ s.next) × (emptied.name ≡ s.name) × (emptied.made ≡ s.made)
  unfolding set_bucket
  emptied-next = (refl, refl, refl)

  emptied-bucket : bucket emptied o here ≡ undefined
  emptied-bucket = bucket-set_bucket s o here undefined here inside ∙ ground arith

  turned-Turned : Turned a o here emptied (css here) [] turned
  unfolding eq
  turned-Turned =
      let (next, _, _) = emptied-next in
      unintern_loop-Turned a o here n emptied (bucket s o here) (css here) []
        (record {
          rest = rw next (v.linked here inside);
          front = rw emptied-bucket refl;
          distinct = v.distinct here inside;
          apart = λ b i. refl;
          inside = rw (size-set_bucket s o here undefined) inside;
          ended = rw emptied-bucket refl;
        })
        (f here inside)

  removed-has :
      (h b : ℕ) → has b (removed s a o css h) ≡ (has b (css h) && not (h == here && b == a))
  removed-has h b = elim (Bool-cases (h == here)) [
    | inl e ↦
        rw e (has-turned_onto b (without a (css h)) [] ∙ ground (arith, has-without b a (css h)))
    | inr e ↦ rw e (ground arith)
  ]

  -- A symbol that is still in a chain is not the one that went.
  removed-other :
      (h b : ℕ) → h < length (buckets s o) → has b (removed s a o css h) ≡ true → (b == a) ≡ false
  removed-other h b i m = elim (Bool-cases (b == a)) [
    | inl e ↦
        let same : b ≡ a = ground arith in
        let old : has b (css h) ≡ true = ground (arith, removed-has h b) in
        let p : h ≡ here =
          sym (v.placed h b i old) ∙ ap (λ c. place (s.name c) (length (buckets s o))) same in
        absurd (ground (arith, removed-has h b))
    | inr e ↦ e
  ]

  turned-size : length (buckets turned o) ≡ length (buckets s o)
  turned-size = turned-Turned.size ∙ size-set_bucket s o here undefined

  turned-bucket : (h : ℕ) → (h == here) ≡ false → bucket turned o h ≡ bucket s o h
  turned-bucket h e =
      turned-Turned.others h e ∙ bucket-set_bucket s o here undefined h inside ∙ rw e refl

  apart_here :
      (h b : ℕ)
      → h < length (buckets s o)
      → (h == here) ≡ false
      → has b (css h) ≡ true
      → has b (css here) ≡ false
  apart_here h b i e m = ground (arith, v.placed h b i m, v.placed here b inside)

  removed-next :
      (h b : ℕ)
      → h < length (buckets s o)
      → (h == here) ≡ false
      → has b (css h) ≡ true
      → turned.next b ≡ s.next b
  removed-next h b i e m =
      turned-Turned.kept b (apart_here h b i e m) ∙ ap (λ next. next b) emptied-next.0

  removed-Linked :
      (h : ℕ)
      → h < length (buckets s o)
      → Linked turned.next (bucket turned o h) (removed s a o css h)
  removed-Linked h i = elim (Bool-cases (h == here)) [
    | inl e ↦ let same : h ≡ here = ground arith in rw e (rw same turned-Turned.linked)
    | inr e ↦
        rw (e, turned-bucket h e)
          (Linked-agree s.next turned.next (bucket s o h) (css h) (λ b m. removed-next h b i e m)
            (v.linked h i))
  ]

  removed-Distinct : (h : ℕ) → h < length (buckets s o) → Distinct (removed s a o css h)
  removed-Distinct h i = elim (Bool-cases (h == here)) [
    | inl e ↦ rw e (
        Distinct-turned_onto (without a (css h)) [] (Distinct-without a (css h) (v.distinct h i)) tt
          (λ b m. refl))
    | inr e ↦ rw e (v.distinct h i)
  ]

  removed-made :
      (h b : ℕ)
      → h < length (buckets s o)
      → has b (removed s a o css h) ≡ true
      → (eq (turned.next b) null ≡ false) × (b < s.made)
  removed-made h b i m =
      let old : has b (css h) ≡ true = ground (arith, removed-has h b) in
      (
        elim (Bool-cases (h == here)) [
          | inl e ↦
              let same : h ≡ here = ground arith in
              turned-Turned.links b (rw same at old) (removed-other h b i m)
          | inr e ↦ rw (removed-next h b i e old) ((v.made h b i old).0)
        ],
        (v.made h b i old).1,
      )

  turned-ended : (h : ℕ) → h < length (buckets s o) → eq (bucket turned o h) null ≡ false
  turned-ended h i = elim (Bool-cases (h == here)) [
    | inl e ↦ let same : h ≡ here = ground arith in rw same turned-Turned.ended
    | inr e ↦ rw (turned-bucket h e) (v.ended h i)
  ]

  turned-names : (turned.name ≡ s.name) × (turned.made ≡ s.made)
  turned-names =
      let (_, name, made) = emptied-next in
      (turned-Turned.names.0 ∙ name, turned-Turned.names.1 ∙ made)

  after-IsObarray : IsObarray (set_next turned a null) o (removed s a o css)
  after-IsObarray =
      let (name, made) = turned-names in
      let es = turned-size in
      let kept : (h b : ℕ)
          → h < length (buckets s o)
          → has b (removed s a o css h) ≡ true
          → (set_next turned a null).next b ≡ turned.next b =
        λ h b i m. ground (arith, removed-other h b i m) in
      record {
        linked = λ h i.
            Linked-agree turned.next (set_next turned a null).next (bucket turned o h)
              (removed s a o css h) (λ b m. kept h b (rw es at i) m)
              (removed-Linked h (rw es at i));
        distinct = λ h i. removed-Distinct h (rw es at i);
        placed =
            λ h b i m. rw (name, es) (v.placed h b (rw es at i) (ground (arith, removed-has h b)));
        made = λ h b i m. rw (kept h b (rw es at i) m, made) (removed-made h b (rw es at i) m);
        ended = λ h i. turned-ended h (rw es at i);
      }

  -- `unintern` takes the symbol out of the obarray, and out of no other chain: the chain of its bucket
  -- turns round without it, every other chain is as before, and the obarray stays a table of symbols by
  -- name. The symbol's link is 0. No chain is longer than the fuel, and the obarray has a bucket.
  pub unintern-IsObarray :
      let (r, t) = unintern n s (symbol a) ob in
      (r ≡ ok (symbol a)) × IsObarray t o (removed s a o css) × (t.next a ≡ null)
  unfolding unintern
  unintern-IsObarray =
      let some_bucket : (length (buckets s o) == 0) ≡ false = ground arith in
      rw some_bucket (refl, after-IsObarray, ground arith)
