-- ===== src/Collector/Growth.antt =====
-- What marking keeps, whatever the fuel: it takes no mark away, and marks no static cell.
use librep.Prelude.{
  ℕ, zero, suc, ◌≡◌, refl, true, false, ◌&&◌, not, List, [], ◌∷◌, arith, Bool-cases, inl, inr, ap,
}
use librep.Value.{Value, is_nil, is_int, eq, eq_iff}
use librep.Collector.{
  Cell, pair, typed_cell, vector_cell, symbol_cell, string_cell, number_cell, closure_cell,
  char_cell, subr_cell, Memory, content, Marks, is_null, is_void, set_mark, mark_val, mark_vals,
  mark_next, mark_char, mark_pair, mark_cell, mark_value,
}
use librep.Collector.Marking.{is_static}
use librep.Collector.Fuel.{Grows}

-- A property of the marks that a new mark of a cell that is not static keeps.
module _ (m : Memory) (P : Marks → Type 0)
    (set : (v : Value) (k : Marks) → is_static (content m v) ≡ false → P k → P (set_mark v k)) where
  module _ (go : Value → Marks → Marks) (ih : (v : Value) (k : Marks) → P k → P (go v k)) where
    mark_val-keeps : (v : Value) (k : Marks) → P k → P (mark_val go v k)
    unfolding mark_val
    mark_val-keeps v k p = elim (Bool-cases (not (is_null v) && not (is_int v) && not (k v))) [
      | inl e ↦ rw e (ih v k p)
      | inr e ↦ rw e p
    ]

    pub mark_vals-keeps : (vs : List Value) (k : Marks) → P k → P (mark_vals go vs k)
    unfolding mark_vals
    mark_vals-keeps [] k p = p
    mark_vals-keeps (v ∷ vs) k p = mark_vals-keeps vs (mark_val go v k) (mark_val-keeps v k p)

    mark_next-keeps : (v : Value) (k : Marks) → P k → P (mark_next go v k)
    unfolding mark_next
    mark_next-keeps v k p = elim (Bool-cases (not (is_null v) && not (is_void v) && not (k v))) [
      | inl e ↦ rw e (ih v k p)
      | inr e ↦ rw e p
    ]

    mark_char-keeps : (v : Value) (k : Marks) → P k → P (mark_char go v k)
    unfolding mark_char
    mark_char-keeps v k p = elim (Bool-cases (not (is_null v) && not (k v))) [
      | inl e ↦ rw e (ih v k p)
      | inr e ↦ rw e p
    ]

    mark_pair-keeps : (x y : Value) (k : Marks) → P k → P (mark_pair go x y k)
    unfolding mark_pair
    mark_pair-keeps x y k p =
        let car = mark_val-keeps x k p in
        elim (Bool-cases (is_nil y)) [
          | inl e ↦ rw e car
          | inr e ↦ rw e (mark_val-keeps y (mark_val go x k) car)
        ]

    mark_cell-keeps :
        (c : Cell) (v : Value) (k : Marks) → content m v ≡ c → P k → P (mark_cell go c v k)
    unfolding mark_cell
    mark_cell-keeps (pair x y) v k e p =
        mark_pair-keeps x y (set_mark v k) (set v k (ap is_static e) p)
    mark_cell-keeps (typed_cell vs) v k e p =
        mark_vals-keeps vs (set_mark v k) (set v k (ap is_static e) p)
    mark_cell-keeps (vector_cell vs) v k e p =
        mark_vals-keeps vs (set_mark v k) (set v k (ap is_static e) p)
    mark_cell-keeps (symbol_cell name next) v k e p =
        mark_next-keeps next (mark_val go name (set_mark v k))
          (mark_val-keeps name (set_mark v k) (set v k (ap is_static e) p))
    mark_cell-keeps (string_cell true) v k e p = p
    mark_cell-keeps (string_cell false) v k e p = set v k (ap is_static e) p
    mark_cell-keeps number_cell v k e p = set v k (ap is_static e) p
    mark_cell-keeps (closure_cell name env structure fun) v k e p =
        let vs = name ∷ env ∷ structure ∷ [] in
        mark_val-keeps fun (mark_vals go vs (set_mark v k))
          (mark_vals-keeps vs (set_mark v k) (set v k (ap is_static e) p))
    mark_cell-keeps (char_cell next) v k e p =
        mark_char-keeps next (set_mark v k) (set v k (ap is_static e) p)
    mark_cell-keeps subr_cell v k e p = p

  pub mark_value-keeps : (n : ℕ) (v : Value) (k : Marks) → P k → P (mark_value m n v k)
  unfolding mark_value
  mark_value-keeps zero v k p = p
  mark_value-keeps (suc n) v k p = elim (Bool-cases (is_int v)) [
    | inl e ↦ rw e p
    | inr e ↦ rw e (mark_cell-keeps (mark_value m n) (mark_value-keeps n) (content m v) v k refl p)
  ]

module _ (m : Memory) (n : ℕ) where
  pub mark_vals-Grows : (vs : List Value) (k : Marks) → Grows k (mark_vals (mark_value m n) vs k)
  mark_vals-Grows vs k =
      let set : (v : Value) (k' : Marks)
          → is_static (content m v) ≡ false
          → Grows k k'
          → Grows k (set_mark v k') =
        λ v k' s g w h. ground (arith, g w h) in
      mark_vals-keeps m (Grows k) set (mark_value m n) (mark_value-keeps m (Grows k) set n) vs k
        (λ w h. h)

  pub mark_vals-none : (k : Marks) → mark_vals (mark_value m n) [] k ≡ k
  unfolding mark_vals
  mark_vals-none k = refl

  -- A static cell gets no mark.
  pub mark_vals-static :
      (s : Value) (vs : List Value) (k : Marks)
      → is_static (content m s) ≡ true
      → k s ≡ false
      → mark_vals (mark_value m n) vs k s ≡ false
  mark_vals-static s vs k e o =
      let P : Marks → Type 0 = λ k'. k' s ≡ false in
      let set : (v : Value) (k' : Marks)
          → is_static (content m v) ≡ false
          → P k'
          → P (set_mark v k') =
        λ v k' h p. elim (Bool-cases (eq s v)) [
          | inl same ↦
              let x : is_static (content m s) ≡ false = rw ((eq_iff s v).0 same) h in ground arith
          | inr n ↦ ground arith
        ] in
      mark_vals-keeps m P set (mark_value m n) (mark_value-keeps m P set n) vs k o
