-- ===== src/Symbols/Interning.antt =====
-- Interning keeps an obarray a table of symbols by name.
use librep.Prelude.{
  ℕ, zero, suc, ◌<◌, ◌≡◌, refl, ap, ◌∙◌, true, false, List, [], ◌∷◌, arith, if◌then◌else◌, ◌==◌,
  Bool-cases, inl, inr, has, Distinct, length, get_or,
}
use librep.Value.{Addr, Value, null, symbol, eq, eq_self}
use librep.Vectors.{set_element}
use librep.Symbols.{Symbols, buckets, bucket, set_bucket, set_next, place, link_symbol}
use librep.Symbols.Chains.{Linked, Linked-agree}

-- The chains of an obarray: the symbols `css h` lead from bucket `h`, each in the bucket of its name.
-- A link is never 0, and an address that is no symbol yet is in no chain.
pub record IsObarray (s : Symbols) (o : Addr) (css : ℕ → List Addr) : Type 0 where
  pub linked : (h : ℕ) → h < length (buckets s o) → Linked s.next (bucket s o h) (css h)
  pub distinct : (h : ℕ) → h < length (buckets s o) → Distinct (css h)
  pub placed :
      (h a : ℕ)
      → h < length (buckets s o)
      → has a (css h) ≡ true
      → place (s.name a) (length (buckets s o)) ≡ h
  pub made :
      (h a : ℕ)
      → h < length (buckets s o)
      → has a (css h) ≡ true
      → (eq (s.next a) null ≡ false) × (a < s.made)
  pub ended : (h : ℕ) → h < length (buckets s o) → eq (bucket s o h) null ≡ false

length-set_element : (xs : List Value) (i : ℕ) (x : Value) → length (set_element xs i x) ≡ length xs
unfolding set_element
length-set_element [] i x = refl
length-set_element (y ∷ ys) zero x = refl
length-set_element (y ∷ ys) (suc i) x = ap suc (length-set_element ys i x)

get_or-set_element :
    (xs : List Value) (i j : ℕ) (x d : Value)
    → i < length xs
    → get_or (set_element xs i x) j d ≡ (if j == i then x else get_or xs j d)
unfolding set_element
get_or-set_element [] i j x d h = absurd (omega arith)
get_or-set_element (y ∷ ys) zero zero x d h = ground arith
get_or-set_element (y ∷ ys) zero (suc j) x d h = ground arith
get_or-set_element (y ∷ ys) (suc i) zero x d h = ground arith
get_or-set_element (y ∷ ys) (suc i) (suc j) x d h =
    get_or-set_element ys i j x d (omega arith) ∙ ground arith

-- An obarray after a write of one bucket.
module _ (s : Symbols) (o : Addr) (h : ℕ) (v : Value) where
  pub size-set_bucket : length (buckets (set_bucket s o h v) o) ≡ length (buckets s o)
  unfolding set_bucket
  size-set_bucket = ground (arith, length-set_element (buckets s o) h v)

  pub bucket-set_bucket :
      (j : ℕ)
      → h < length (buckets s o)
      → bucket (set_bucket s o h v) o j ≡ (if j == h then v else bucket s o j)
  unfolding set_bucket
  bucket-set_bucket j i = ground (arith, get_or-set_element (buckets s o) h j v null i)

pub place-lt : (name : List ℕ) (size : ℕ) → 0 < size → place name size < size
place-lt name size h = omega arith

-- The chains when the symbol `a` has joined its own.
abbrev pub joined : Symbols → Addr → Addr → (ℕ → List Addr) → ℕ → List Addr
joined s a o css h = if h == place (s.name a) (length (buckets s o)) then a ∷ css h else css h

module _ (s : Symbols) (a o : Addr) (css : ℕ → List Addr) (v : IsObarray s o css)
    (size : 0 < length (buckets s o)) (new : s.next a ≡ null) (is_made : a < s.made) where
  abbrev here : ℕ
  here = place (s.name a) (length (buckets s o))

  absent : (h : ℕ) → h < length (buckets s o) → has a (css h) ≡ false
  absent h i =
      let free : eq (s.next a) null ≡ true = rw new (eq_self null) in ground (arith, v.made h a i)

  size-link_symbol : length (buckets (link_symbol s a o) o) ≡ length (buckets s o)
  unfolding link_symbol
  size-link_symbol = size-set_bucket (set_next s a (bucket s o here)) o here (symbol a)

  bucket-link_symbol :
      (h : ℕ) → bucket (link_symbol s a o) o h ≡ (if h == here then symbol a else bucket s o h)
  unfolding link_symbol
  bucket-link_symbol h =
      bucket-set_bucket (set_next s a (bucket s o here)) o here (symbol a) h
        (place-lt (s.name a) (length (buckets s o)) size)

  pub link_symbol-kept :
      ((link_symbol s a o).name ≡ s.name)
      × ((link_symbol s a o).obarray ≡ s.obarray)
      × (length (buckets (link_symbol s a o) o) ≡ length (buckets s o))
  unfolding link_symbol set_bucket
  link_symbol-kept = (refl, refl, size-link_symbol)

  fields-link_symbol :
      ((link_symbol s a o).next ≡ (set_next s a (bucket s o here)).next)
      × ((link_symbol s a o).name ≡ s.name)
      × ((link_symbol s a o).made ≡ s.made)
  unfolding link_symbol set_bucket
  fields-link_symbol = (refl, refl, refl)

  -- The links after it.
  after : Addr → Value
  after = (set_next s a (bucket s o here)).next

  after-same : (h b : ℕ) → h < length (buckets s o) → has b (css h) ≡ true → after b ≡ s.next b
  unfolding after
  after-same h b i m = ground (arith, absent h i)

  after_self : after a ≡ bucket s o here
  unfolding after
  after_self = ground arith

  joined-Linked :
      (h : ℕ)
      → h < length (buckets s o)
      → Linked after (if h == here then symbol a else bucket s o h) (joined s a o css h)
  joined-Linked h i =
      let rest =
        Linked-agree s.next after (bucket s o h) (css h) (λ b m. after-same h b i m)
          (v.linked h i) in
      elim (Bool-cases (h == here)) [
        | inl e ↦ let same : h ≡ here = ground arith in rw e (refl, rw (after_self, ← same) rest)
        | inr e ↦ rw e rest
      ]

  joined-Distinct : (h : ℕ) → h < length (buckets s o) → Distinct (joined s a o css h)
  joined-Distinct h i = elim (Bool-cases (h == here)) [
    | inl e ↦ rw e (absent h i, v.distinct h i)
    | inr e ↦ rw e (v.distinct h i)
  ]

  joined-placed :
      (h b : ℕ)
      → h < length (buckets s o)
      → has b (joined s a o css h) ≡ true
      → place (s.name b) (length (buckets s o)) ≡ h
  joined-placed h b i m = elim (Bool-cases (h == here)) [
    | inl e ↦ elim (Bool-cases (b == a)) [
      | inl k ↦ let same : b ≡ a = ground arith in rw same (ground arith)
      | inr k ↦ v.placed h b i (ground arith)
    ]
    | inr e ↦ v.placed h b i (ground arith)
  ]

  joined-made :
      (h b : ℕ)
      → h < length (buckets s o)
      → has b (joined s a o css h) ≡ true
      → (eq (after b) null ≡ false) × (b < s.made)
  joined-made h b i m = elim (Bool-cases (b == a)) [
    | inl k ↦
        let same : b ≡ a = ground arith in
        rw same
          (rw after_self (v.ended here (place-lt (s.name a) (length (buckets s o)) size)), is_made)
    | inr k ↦
        let old : has b (css h) ≡ true = ground arith in
        rw (after-same h b i old) (v.made h b i old)
  ]

  pub link_symbol-IsObarray : IsObarray (link_symbol s a o) o (joined s a o css)
  unfolding after eq
  link_symbol-IsObarray =
      let (en, ed, em) = fields-link_symbol in
      let es = size-link_symbol in
      record {
        linked = λ h i. rw (bucket-link_symbol h, en) (joined-Linked h (rw es at i));
        distinct = λ h i. joined-Distinct h (rw es at i);
        placed = λ h b i m. rw (ed, es) (joined-placed h b (rw es at i) m);
        made = λ h b i m. rw (en, em) (joined-made h b (rw es at i) m);
        ended = λ h i. rw (bucket-link_symbol h) (ground (arith, v.ended h (rw es at i)));
      }
