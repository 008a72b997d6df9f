-- ===== src/Plists/Properties.antt =====
-- What get finds after put.
use librep.Prelude.{
  ℕ, zero, suc, ◌<◌, ◌≡◌, refl, ap, Bool, true, false, Option, none, some, List, [], ◌∷◌, arith,
  length, has, ◌==◌, ◌∙◌, Bool-cases, inl, inr,
}
use librep.Value.{Addr, Value, symbol, cons, is_symbol, eq, eq_iff, ok}
use librep.Heap.{Store, set_car_of, make_cons}
use librep.Heap.Alloc.{IsValid, make_cons_lem}
use librep.Plists.{
  Plists, plist_or_nil, second_cell, two_cells, is_property, find_property, value_found, get_result,
  get, add_property, put_found, put,
}

-- From `v` the list leads through the cells of its properties, each before that of its value.
abbrev pub Properties : Store → Value → List (Addr × Addr) → Type 0
Properties s v [] = two_cells s v ≡ none
Properties s v ((a, b) ∷ ps) = (two_cells s v ≡ some (a, b)) × Properties s (s.cdr b) ps

abbrev pub keys : List (Addr × Addr) → List Addr
keys [] = []
keys ((a, b) ∷ ps) = a ∷ keys ps

abbrev pub values : List (Addr × Addr) → List Addr
values [] = []
values ((a, b) ∷ ps) = b ∷ values ps

-- What the search finds is the cell of a value.
abbrev Found : List (Addr × Addr) → Option Addr → Type 0
Found ps none = Unit {0}
Found ps (some b) = has b (values ps) ≡ true

two_cells-write :
    (s : Store) (b : Addr) (x v : Value) → two_cells (set_car_of s b x) v ≡ two_cells s v
unfolding two_cells
two_cells-write s b x v = ground arith

module _ (equal : Store → Value → Value → Bool) (prop : Value) (is : is_symbol prop ≡ true) where
  is_property-eq : (s : Store) (key : Value) → is_property equal s key prop ≡ eq key prop
  unfolding is_property
  is_property-eq s key = rw is (ground arith)

  find_property_lem :
      (s : Store) (v : Value) (ps : List (Addr × Addr)) (n : ℕ)
      → Properties s v ps
      → length ps < n
      → (r : Option Addr) × (find_property equal n s prop v ≡ some r) × Found ps r
  unfolding find_property
  find_property_lem s v [] zero h lt = absurd (omega arith)
  find_property_lem s v [] (suc n) h lt = (none, rw h refl, tt)
  find_property_lem s v ((a, b) ∷ ps) zero h lt = absurd (omega arith)
  find_property_lem s v ((a, b) ∷ ps) (suc n) (h, t) lt =
      elim (Bool-cases (is_property equal s (s.car a) prop)) [
        | inl e ↦ (some b, rw (h, e) refl, ground arith)
        | inr e ↦
            let (r, found, here) = find_property_lem s (s.cdr b) ps n t (omega arith) in
            (r, rw (h, e) found, later a b ps r here)
      ]
    where
      later :
          (a b : Addr) (ps : List (Addr × Addr)) (r : Option Addr)
          → Found ps r
          → Found ((a, b) ∷ ps) r
      later a b ps none h = tt
      later a b ps (some c) h = ground arith

  -- A write to the car of a cell that is no property's changes no answer of the search.
  find_property-write :
      (s : Store) (b : Addr) (x v : Value) (ps : List (Addr × Addr)) (n : ℕ)
      → Properties s v ps
      → has b (keys ps) ≡ false
      → find_property equal n (set_car_of s b x) prop v ≡ find_property equal n s prop v
  unfolding find_property
  find_property-write s b x v ps zero h out = refl
  find_property-write s b x v [] (suc n) h out = rw (two_cells-write s b x v, h) refl
  find_property-write s b x v ((a, c) ∷ ps) (suc n) (h, t) out =
      let s' = set_car_of s b x in
      let apart : (a == b) ≡ false = ground arith in
      rw
        (
          two_cells-write s b x v,
          h,
          is_property-eq s' (s'.car a),
          is_property-eq s (s.car a),
          apart,
          find_property-write s b x (s.cdr c) ps n t (ground arith),
        )
        refl

  get-found :
      (p : Plists) (a : Addr) (n : ℕ) (r : Option Addr)
      → find_property equal n p.store prop (plist_or_nil (p.plist_of a)) ≡ some r
      → get equal n p (symbol a) prop ≡ some (ok (value_found equal p.store r))
  unfolding get get_result
  get-found p a n r h = ap (get_result equal p.store) h

  -- A list that begins with the property.
  find_property-first :
      (s : Store) (c d : Addr) (n : ℕ)
      → s.car c ≡ prop
      → s.cdr c ≡ cons d
      → find_property equal (suc n) s prop (cons c) ≡ some (some d)
  unfolding find_property two_cells second_cell
  find_property-first s c d n e f =
      let same : eq prop prop ≡ true = (eq_iff prop prop).1 refl in
      rw (f, is_property-eq s (s.car c), e, same) refl

  add_property-get :
      (p : Plists) (a : Addr) (val old : Value) (fs : List Addr) (n : ℕ)
      → IsValid p.store fs
      → get equal (suc n) (add_property equal p a prop val old) (symbol a) prop ≡ some (ok val)
  unfolding add_property value_found
  add_property-get p a val old fs n valid =
      let (gs, k) = make_cons_lem p.store val old fs valid in
      let d = (make_cons p.store val old).0 in
      let s = (make_cons p.store val old).1 in
      let (hs, m) = make_cons_lem s prop (cons d) gs k.valid in
      let c = (make_cons s prop (cons d)).0 in
      let t = (make_cons s prop (cons d)).1 in
      let self : (a == a) ≡ true = ground arith in
      get-found (add_property equal p a prop val old) a (suc n) (some d)
        (rw self (find_property-first t c d n m.car m.cdr))
      ∙ ap (λ x. some (ok x)) (m.kept.car d k.new ∙ k.car)

  module _ (accessible : Value → Bool) (p : Plists) (a : Addr) (val : Value)
      (ps : List (Addr × Addr)) (n : ℕ) where
    -- After `put` of a property that is a symbol `get` finds its value, whether the property was there
    -- or is new: for an accessible symbol whose list has distinct cells for properties and for values,
    -- with fuel for one round more than properties.
    -- The free list of the store is valid.
    pub put-get :
        (fs : List Addr)
        → IsValid p.store fs
        → accessible (symbol a) ≡ true
        → Properties p.store (plist_or_nil (p.plist_of a)) ps
        → ((b : Addr) → has b (values ps) ≡ true → has b (keys ps) ≡ false)
        → length ps < n
        → (p' : Plists) × (put equal accessible n p (symbol a) prop val ≡ some (ok val, p'))
          × (get equal n p' (symbol a) prop ≡ some (ok val))
    unfolding put get
    put-get fs valid acc h apart lt =
        let old = plist_or_nil (p.plist_of a) in
        let (r, found, here) = find_property_lem p.store old ps n h lt in
        (put_found equal p a prop val old r, rw (acc, found) refl, after r found here)
      where
        after :
            (r : Option Addr)
            → find_property equal n p.store prop (plist_or_nil (p.plist_of a)) ≡ some r
            → Found ps r
            → get equal n
                (put_found equal p a prop val (plist_or_nil (p.plist_of a)) r)
                (symbol a)
                prop
              ≡ some (ok val)
        after none found here = first n lt
          where
            first :
                (n : ℕ)
                → length ps < n
                → get equal n
                    (add_property equal p a prop val (plist_or_nil (p.plist_of a)))
                    (symbol a)
                    prop
                  ≡ some (ok val)
            first zero lt = absurd (omega arith)
            first (suc n) lt = add_property-get p a val (plist_or_nil (p.plist_of a)) fs n valid
        after (some b) found here =
            let q : Plists = record p { store = set_car_of p.store b val } in
            let written : q.store.car b ≡ val = ground arith in
            get-found q a n (some b) (
              find_property-write p.store b val (plist_or_nil (p.plist_of a)) ps n h (apart b here)
              ∙ found)
            ∙ unfold value_found in ap (λ x. some (ok x)) written
