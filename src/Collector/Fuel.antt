-- ===== src/Collector/Fuel.antt =====
-- `rep_mark_value` with enough fuel: it is called at most once for each cell without a mark.
use librep.Prelude.{
  ◌≢◌, ℕ, zero, suc, ◌+◌, ◌≤◌, ◌<◌, ◌≡◌, refl, sym, ap, ◌∙◌, true, false, ◌&&◌, not, List, [], ◌∷◌,
  arith, if◌then◌else◌, Bool-cases, inl, inr,
}
use librep.Prelude.Int.{ℤ}
use librep.Value.{
  Value, null, nil, undefined, fixnum, symbol, cons, object, eq, eq_iff, eq_self, is_int, is_nil,
}
use librep.Collector.{
  Cell, pair, typed_cell, vector_cell, symbol_cell, string_cell, number_cell, closure_cell,
  char_cell, subr_cell, Memory, content, Marks, is_null, is_void, set_mark, mark_val, mark_vals,
  mark_next, mark_char, mark_pair, mark_cell, mark_value,
}
use librep.Collector.Marking.{
  fields, has_value, is_static, is_cell, covered, Marked, Marked-nothing, Marked-append,
  Marked-covered, Marked-cell,
}

-- The cells of the memory without a mark.
abbrev pub unmarked : Marks → List Value → ℕ
unmarked k [] = 0
unmarked k (v ∷ vs) = (if k v then 0 else 1) + unmarked k vs

abbrev pub Grows : Marks → Marks → Type 0
Grows k k' = (w : Value) → k w ≡ true → k' w ≡ true

pub unmarked-Grows : (k k' : Marks) (us : List Value) → Grows k k' → unmarked k' us ≤ unmarked k us
unmarked-Grows k k' [] h = omega arith
unmarked-Grows k k' (u ∷ us) h = ground (arith, h u, unmarked-Grows k k' us h)

unmarked-set_mark :
    (k : Marks) (v : Value) (us : List Value)
    → has_value v us ≡ true
    → k v ≡ false
    → unmarked (set_mark v k) us < unmarked k us
unmarked-set_mark k v [] i o = absurd (ground arith)
unmarked-set_mark k v (u ∷ us) i o = elim (Bool-cases (eq v u)) [
  | inl e ↦
      let same : v ≡ u = (eq_iff v u).0 e in
      let new : k u ≡ false = rw (← same) o in
      ground (
        arith,
        unmarked-Grows k (set_mark v k) us (λ w h. ground arith),
        (eq_iff u v).1 (sym same),
        new,
      )
  | inr n ↦ ground (arith, unmarked-set_mark k v us (ground arith) o, eq_iff u v)
]

no_fixnum : (v : Value) → ((i : ℤ) → v ≢ fixnum i) → is_int v ≡ false
no_fixnum (fixnum i) h = absurd (h i refl)
no_fixnum null h = refl
no_fixnum nil h = refl
no_fixnum undefined h = refl
no_fixnum (symbol a) h = refl
no_fixnum (cons a) h = refl
no_fixnum (object t a) h = refl

-- A list that holds every cell that its cells refer to. No symbol is linked to a fixnum.
pub record IsClosed (m : Memory) (us : List Value) : Type 0 where
  pub holds :
      (u w : Value)
      → has_value u us ≡ true
      → has_value w (fields (content m u)) ≡ true
      → is_cell w ≡ true
      → has_value w us ≡ true
  pub linked :
      (u name : Value) (i : ℤ) → has_value u us ≡ true → content m u ≢ symbol_cell name (fixnum i)

abbrev pub HasStatics : Marks → Type 0
HasStatics k = (k nil ≡ true) × (k undefined ≡ true)

-- `rep_nil` and the void value need no mark.
covered-nil :
    (m : Memory) (k : Marks) (v : Value) → is_nil v ≡ true → k nil ≡ true → covered m k v ≡ true
covered-nil m k null e h = ground arith
covered-nil m k nil e h = ground arith
covered-nil m k undefined e h = ground arith
covered-nil m k (fixnum i) e h = ground arith
covered-nil m k (symbol a) e h = ground arith
covered-nil m k (cons a) e h = ground arith
covered-nil m k (object t a) e h = ground arith

covered-untested :
    (m : Memory) (k : Marks) (v : Value)
    → (not (is_null v) && not (is_void v) && not (k v)) ≡ false
    → k undefined ≡ true
    → covered m k v ≡ true
covered-untested m k null c h = refl
covered-untested m k undefined c h = ground arith
covered-untested m k nil c h = ground arith
covered-untested m k (fixnum i) c h = refl
covered-untested m k (symbol a) c h = ground arith
covered-untested m k (cons a) c h = ground arith
covered-untested m k (object t a) c h = ground arith

mark_value-fixnum :
    (m : Memory) (n : ℕ) (v : Value) (k : Marks) → is_int v ≡ true → mark_value m n v k ≡ k
unfolding mark_value
mark_value-fixnum m zero v k h = refl
mark_value-fixnum m (suc n) v k h = rw h refl

module _ (m : Memory) (us : List Value) (closed : IsClosed m us) where
  -- What a call of `rep_mark_value` needs.
  abbrev pub Ready : ℕ → Marks → Type 0
  Ready n k = (unmarked k us ≤ n) × HasStatics k

  pub Ready-Marked :
      (n : ℕ) (k k' : Marks) (vs : List Value) → Ready n k → Marked m k vs k' → Ready n k'
  Ready-Marked n k k' vs (f, (a, b)) d =
      (omega (arith, unmarked-Grows k k' us d.grows), (d.grows nil a, d.grows undefined b))

  abbrev pub MarksValue : (Value → Marks → Marks) → ℕ → Type 0
  MarksValue go n =
      (v : Value) (k : Marks)
      → has_value v us ≡ true
      → Ready n k
      → is_cell v ≡ true
      → k v ≡ false
      → Marked m k (v ∷ []) (go v k)

  module _ (go : Value → Marks → Marks) (n : ℕ) (ih : MarksValue go n) where
    -- The cells among the values are cells of the memory.
    abbrev pub Held : List Value → Type 0
    Held vs = (v : Value) → has_value v vs ≡ true → is_cell v ≡ true → has_value v us ≡ true

    mark_val-Marked :
        (v : Value) (k : Marks)
        → (is_cell v ≡ true → has_value v us ≡ true)
        → Ready n k
        → Marked m k (v ∷ []) (mark_val go v k)
    unfolding mark_val
    mark_val-Marked v k held ready = elim (Bool-cases (is_cell v && not (k v))) [
      | inl c ↦
          let test : (not (is_null v) && not (is_int v) && not (k v)) ≡ true = ground arith in
          rw test (ih v k (held (ground arith)) ready (ground arith) (ground arith))
      | inr c ↦
          let test : (not (is_null v) && not (is_int v) && not (k v)) ≡ false = ground arith in
          rw test (Marked-covered m k v (ground arith))
    ]

    pub mark_vals-Marked :
        (vs : List Value) (k : Marks) → Held vs → Ready n k → Marked m k vs (mark_vals go vs k)
    unfolding mark_vals
    mark_vals-Marked [] k held ready = Marked-nothing m k
    mark_vals-Marked (v ∷ vs) k held ready =
        let first = mark_val-Marked v k (held v (ground (arith, eq_self v))) ready in
        let k' = mark_val go v k in
        Marked-append m k k' (mark_vals go vs k') (v ∷ []) vs first (
          mark_vals-Marked vs k' (λ w i. held w (ground arith))
            (Ready-Marked n k k' (v ∷ []) ready first))

    -- The rest of a cell whose mark is set
    module _ (v : Value) (k : Marks) (old : k v ≡ false) (v_in : has_value v us ≡ true)
        (ready : Ready (suc n) k) where
      Ready-set_mark : Ready n (set_mark v k)
      Ready-set_mark =
          let (f, (a, b)) = ready in
          (omega (arith, unmarked-set_mark k v us v_in old), (ground arith, ground arith))

      Held-fields : (c : Cell) → content m v ≡ c → Held (fields c)
      Held-fields c e w i h = closed.holds v w v_in (rw e i) h

      mark_pair-Marked :
          (x y : Value)
          → Held (x ∷ y ∷ [])
          → Marked m (set_mark v k) (x ∷ y ∷ []) (mark_pair go x y (set_mark v k))
      unfolding mark_pair
      mark_pair-Marked x y held =
          let k1 = set_mark v k in
          let first = mark_val-Marked x k1 (held x (ground (arith, eq_self x))) Ready-set_mark in
          let k2 = mark_val go x k1 in
          let ready' = Ready-Marked n k1 k2 (x ∷ []) Ready-set_mark first in
          elim (Bool-cases (is_nil y)) [
            | inl e ↦ rw e (
                Marked-append m k1 k2 k2 (x ∷ []) (y ∷ []) first
                  (Marked-covered m k2 y (covered-nil m k2 y e ready'.1.0)))
            | inr e ↦ rw e (
                Marked-append m k1 k2 (mark_val go y k2) (x ∷ []) (y ∷ []) first
                  (mark_val-Marked y k2 (held y (ground (arith, eq_self y))) ready'))
          ]

      mark_next-Marked :
          (next : Value) (k' : Marks)
          → (is_cell next ≡ true → has_value next us ≡ true)
          → is_int next ≡ false
          → Ready n k'
          → Marked m k' (next ∷ []) (mark_next go next k')
      unfolding mark_next
      mark_next-Marked next k' held linked ready' =
          elim (Bool-cases (not (is_null next) && not (is_void next) && not (k' next))) [
            | inl c ↦ rw c (ih next k' (held (ground arith)) ready' (ground arith) (ground arith))
            | inr c ↦ rw c (Marked-covered m k' next (covered-untested m k' next c ready'.1.1))
          ]

      mark_char-Marked :
          (next : Value) (k' : Marks)
          → (is_cell next ≡ true → has_value next us ≡ true)
          → ((w : Value) (k : Marks) → is_int w ≡ true → go w k ≡ k)
          → Ready n k'
          → Marked m k' (next ∷ []) (mark_char go next k')
      unfolding mark_char
      mark_char-Marked next k' held ints ready' =
          elim (Bool-cases (not (is_null next) && not (k' next))) [
            | inl c ↦ elim (Bool-cases (is_int next)) [
              | inl i ↦ rw (c, ints next k' i) (Marked-covered m k' next (ground arith))
              | inr i ↦ rw c (ih next k' (held (ground arith)) ready' (ground arith) (ground arith))
            ]
            | inr c ↦ rw c (Marked-covered m k' next (ground arith))
          ]

      -- One cell, by the kind of its content
      mark_cell-Marked :
          (c : Cell)
          → ((w : Value) (k : Marks) → is_int w ≡ true → go w k ≡ k)
          → content m v ≡ c
          → Marked m k (v ∷ []) (mark_cell go c v k)
      unfolding mark_cell
      mark_cell-Marked (pair x y) ints e =
          Marked-cell m k _ v (rw e (mark_pair-Marked x y (Held-fields (pair x y) e)))
      mark_cell-Marked (typed_cell vs) ints e =
          Marked-cell m k _ v (
            rw e
              (mark_vals-Marked vs (set_mark v k) (Held-fields (typed_cell vs) e) Ready-set_mark))
      mark_cell-Marked (vector_cell vs) ints e = Marked-cell m k _ v (
          rw e (mark_vals-Marked vs (set_mark v k) (Held-fields (vector_cell vs) e) Ready-set_mark))
      mark_cell-Marked (symbol_cell name next) ints e =
          let held = Held-fields (symbol_cell name next) e in
          let k1 = set_mark v k in
          let first =
            mark_val-Marked name k1 (held name (ground (arith, eq_self name))) Ready-set_mark in
          let k2 = mark_val go name k1 in
          Marked-cell m k _ v (
            rw e (
              Marked-append m k1 k2 _ (name ∷ []) (next ∷ []) first (
                mark_next-Marked next k2 (held next (ground (arith, eq_self next)))
                  (no_fixnum next
                    λ i same. closed.linked v name i v_in (e ∙ ap (symbol_cell name) same))
                  (Ready-Marked n k1 k2 (name ∷ []) Ready-set_mark first))))
      mark_cell-Marked (string_cell true) ints e =
          Marked-covered m k v (ground (arith, ap is_static e))
      mark_cell-Marked (string_cell false) ints e =
          Marked-cell m k _ v (rw e (Marked-nothing m (set_mark v k)))
      mark_cell-Marked number_cell ints e =
          Marked-cell m k _ v (rw e (Marked-nothing m (set_mark v k)))
      mark_cell-Marked (closure_cell name env structure fun) ints e =
          let held = Held-fields (closure_cell name env structure fun) e in
          let k1 = set_mark v k in
          let vs = name ∷ env ∷ structure ∷ [] in
          let first = mark_vals-Marked vs k1 (λ w i. held w (ground arith)) Ready-set_mark in
          let k2 = mark_vals go vs k1 in
          Marked-cell m k _ v (
            rw e (
              Marked-append m k1 k2 _ vs (fun ∷ []) first (
                mark_val-Marked fun k2 (held fun (ground (arith, eq_self fun)))
                  (Ready-Marked n k1 k2 vs Ready-set_mark first))))
      mark_cell-Marked (char_cell next) ints e = Marked-cell m k _ v (
          rw e (
            mark_char-Marked next (set_mark v k)
              (Held-fields (char_cell next) e next (ground (arith, eq_self next))) ints
              Ready-set_mark))
      mark_cell-Marked subr_cell ints e = Marked-covered m k v (ground (arith, ap is_static e))

  pub mark_value-MarksValue : (n : ℕ) → MarksValue (mark_value m n) n
  unfolding mark_value
  mark_value-MarksValue zero v k i (f, s) c o =
      let some_left = unmarked-set_mark k v us i o in absurd (omega arith)
  mark_value-MarksValue (suc n) v k i ready c o =
      let test : is_int v ≡ false = ground arith in
      rw test (
        mark_cell-Marked (mark_value m n) n (mark_value-MarksValue n) v k o i ready (content m v)
          (mark_value-fixnum m n) refl)
