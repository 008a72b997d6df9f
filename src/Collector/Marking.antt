-- ===== src/Collector/Marking.antt =====
-- What a call of `rep_MARKVAL` marks.
use librep.Prelude.{
  ◌≡◌, refl, Bool, true, false, ◌&&◌, ◌||◌, not, List, [], ◌∷◌, ◌++◌, arith, Bool-cases, inl, inr,
}
use librep.Value.{Addr, Value, cons, eq, eq_iff, eq_self, is_int}
use librep.Collector.{
  Cell, pair, typed_cell, vector_cell, symbol_cell, string_cell, number_cell, closure_cell,
  char_cell, subr_cell, Memory, content, Marks, is_null, set_mark,
}

-- The values that a cell refers to.
abbrev pub fields : Cell → List Value
fields (pair x y) = x ∷ y ∷ []
fields (typed_cell vs) = vs
fields (vector_cell vs) = vs
fields (symbol_cell name next) = name ∷ next ∷ []
fields (string_cell _) = []
fields number_cell = []
fields (closure_cell name env structure fun) = name ∷ env ∷ structure ∷ fun ∷ []
fields (char_cell next) = next ∷ []
fields subr_cell = []

abbrev pub has_value : Value → List Value → Bool
has_value v [] = false
has_value v (w ∷ ws) = eq v w || has_value v ws

pub has_value-append :
    (w : Value) (us vs : List Value) → has_value w (us ++ vs) ≡ (has_value w us || has_value w vs)
has_value-append w [] vs = refl
has_value-append w (u ∷ us) vs = ground (arith, has_value-append w us vs)

-- A cell that no sweep ever frees, and that is therefore not marked.
abbrev pub is_static : Cell → Bool
is_static (string_cell static) = static
is_static subr_cell = true
is_static _ = false

-- A word that points to a cell.
abbrev pub is_cell : Value → Bool
is_cell v = not (is_null v) && not (is_int v)

module _ (m : Memory) where
  -- A value leads to itself, and to every field of a cell that it leads to.
  pub data Reach (v : Value) : Value → Type 0 where
    here : Reach v v
    next : {u w : Value} → Reach v u → has_value w (fields (content m u)) ≡ true → Reach v w

  -- The sweeps will not free the value.
  abbrev pub covered : Marks → Value → Bool
  covered k v = not (is_cell v) || k v || is_static (content m v)

  pub covered-cons : (k : Marks) (a : Addr) → covered k (cons a) ≡ k (cons a)
  unfolding content
  covered-cons k a = ground arith

  -- The marks `k'` are `k` and the marks of what the values `vs` lead to.
  pub record Marked (k : Marks) (vs : List Value) (k' : Marks) : Type 0 where
    pub grows : (w : Value) → k w ≡ true → k' w ≡ true
    pub covers : (w : Value) → has_value w vs ≡ true → covered k' w ≡ true
    pub closes :
        (u w : Value)
        → k' u ≡ true
        → k u ≡ false
        → has_value w (fields (content m u)) ≡ true
        → covered k' w ≡ true
    pub sound :
        (w : Value) → k' w ≡ true → k w ≡ false → (v : Value) × (has_value v vs ≡ true) × Reach v w

  covered-grows :
      (k k' : Marks) (w : Value)
      → ((w : Value) → k w ≡ true → k' w ≡ true)
      → covered k w ≡ true
      → covered k' w ≡ true
  covered-grows k k' w h c = ground (arith, h w)

  pub Marked-nothing : (k : Marks) → Marked k [] k
  Marked-nothing k = record {
    grows = λ w h. h;
    covers = λ w h. ground arith;
    closes = λ u w h o i. ground arith;
    sound = λ w h o. absurd (ground arith);
  }

  -- Marking more values after others.
  pub Marked-append :
      (k k' k'' : Marks) (us vs : List Value)
      → Marked k us k'
      → Marked k' vs k''
      → Marked k (us ++ vs) k''
  Marked-append k k' k'' us vs a b = record {
    grows = λ w h. b.grows w (a.grows w h);
    covers = λ w h. elim (Bool-cases (has_value w us)) [
      | inl i ↦ covered-grows k' k'' w b.grows (a.covers w i)
      | inr o ↦ b.covers w (ground (arith, has_value-append w us vs))
    ];
    closes = λ u w h o i. elim (Bool-cases (k' u)) [
      | inl old ↦ covered-grows k' k'' w b.grows (a.closes u w old o i)
      | inr new ↦ b.closes u w h new i
    ];
    sound = λ w h o. elim (Bool-cases (k' w)) [
      | inl old ↦
          let (v, i, r) = a.sound w old o in (v, ground (arith, has_value-append v us vs), r)
      | inr new ↦
          let (v, i, r) = b.sound w h new in (v, ground (arith, has_value-append v us vs), r)
    ];
  }

  -- A value that needs no mark.
  pub Marked-covered : (k : Marks) (v : Value) → covered k v ≡ true → Marked k (v ∷ []) k
  Marked-covered k v c = record {
    grows = λ w h. h;
    covers = λ w h. let e : w ≡ v = (eq_iff w v).0 (ground arith) in rw e c;
    closes = λ u w h o i. ground arith;
    sound = λ w h o. absurd (ground arith);
  }

  Reach-trans : {u v w : Value} → Reach u v → Reach v w → Reach u w
  Reach-trans r here = r
  Reach-trans r (next s i) = next (Reach-trans r s) i

  -- A cell that gets its mark, and then its fields.
  pub Marked-cell :
      (k k' : Marks) (v : Value)
      → Marked (set_mark v k) (fields (content m v)) k'
      → Marked k (v ∷ []) k'
  Marked-cell k k' v a = record {
    grows = λ w h. a.grows w (ground arith);
    covers = λ w h.
        let e : w ≡ v = (eq_iff w v).0 (ground arith) in
        let marked : k' v ≡ true = a.grows v (ground (arith, eq_self v)) in rw e (ground arith);
    closes = λ u w h o i. elim (Bool-cases (eq u v)) [
      | inl e ↦ a.covers w (rw (← (eq_iff u v).0 e) i)
      | inr n ↦ a.closes u w h (ground arith) i
    ];
    sound = λ w h o. elim (Bool-cases (eq w v)) [
      | inl e ↦ (v, ground (arith, eq_self v), rw ((eq_iff w v).0 e) here)
      | inr n ↦
          let (u, i, r) = a.sound w h (ground arith) in
          (v, ground (arith, eq_self v), Reach-trans (next here i) r)
    ];
  }
