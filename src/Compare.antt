-- ===== src/Compare.antt =====
-- src/compare.c, rep_cons_cmp of src/lists.c, and the fixnum branches of rep_compare_numbers,
-- number_cmp and eqv? of src/numbers.c. `other` stands for the compare functions of the types that
-- are not modelled, and `numbers` for rep_compare_numbers where an argument is a number cell.
-- The recursion of rep_value_cmp is on fuel: it has no bound of its own on a circular list.
pub mod Fixnums
pub mod Trees
use librep.Prelude.{
  ℕ, zero, suc, ◌+◌, ◌-◌, ◌%◌, ◌^◌, ◌≡◌, Bool, true, false, ◌&&◌, ◌||◌, not, Option, none, some,
  List, [], ◌∷◌, ltb, ◌==◌, if◌then◌else◌,
}
use mathlib.Core.Option
use librep.Prelude.Int.{ℤ, pos, negsuc, ◌-ℤ◌}
use librep.Value.{
  Value, null, nil, fixnum, cons, truth, of_bool, eq, is_nil, is_int, Result, ok, err, missing_arg,
}
use librep.Heap.{Store}

-- The low 32 bits of an intptr_t.
abbrev pub low_bits : ℤ → ℕ
low_bits (pos n) = n % 2 ^ 32
low_bits (negsuc n) = 2 ^ 32 - 1 - n % 2 ^ 32

-- The conversion of an intptr_t to an int.
abbrev pub to_int : ℤ → ℤ
to_int x = let r = low_bits x in if ltb r (2 ^ 31) then pos r else negsuc (2 ^ 32 - 1 - r)

-- `return rep_INT(v1) - rep_INT(v2);` in a function that returns an int
pub int_cmp : ℤ → ℤ → ℤ
unfolding ◌-ℤ◌
int_cmp a b = to_int (a -ℤ b)

abbrev pub is_zero : ℤ → Bool
is_zero (pos n) = n == 0
is_zero (negsuc n) = false

abbrev pub is_negative : ℤ → Bool
is_negative (pos n) = false
is_negative (negsuc n) = true

-- `if (ret == 0) ret = ...;`
pub or_else : Option ℤ → Option ℤ → Option ℤ
or_else none r = none
or_else (some x) r = if is_zero x then r else some x

-- `if (!(sign op 0)) return rep_nil;`, and the rest of the loop
pub compare_with : (ℤ → Bool) → Option (Result Value) → Option ℤ → Option (Result Value)
compare_with op rest none = none
compare_with op rest (some r) = if op r then rest else some (ok nil)

-- `Feq` and `Fnot`
pub feq : Value → Value → Value
unfolding eq
feq v w = of_bool (eq v w)

pub fnot : Value → Value
fnot v = of_bool (is_nil v)

module _ (other : Value → Value → ℤ) where
  -- `rep_value_type(v1)->compare(v1, v2)`, and 1 if one of them is 0
  pub type_cmp : (Value → Value → Option ℤ) → Store → Value → Value → Option ℤ
  unfolding or_else int_cmp
  type_cmp cmp s null w = some (pos 1)
  type_cmp cmp s (cons a) (cons b) = or_else (cmp (s.car a) (s.car b)) (cmp (s.cdr a) (s.cdr b))
  type_cmp cmp s (cons a) w = some (pos 1)
  type_cmp cmp s v null = some (pos 1)
  type_cmp cmp s (fixnum a) (fixnum b) = some (int_cmp a b)
  type_cmp cmp s v w = some (other v w)

  -- `rep_value_cmp`
  pub value_cmp : ℕ → Store → Value → Value → Option ℤ
  unfolding type_cmp eq
  value_cmp zero s v w = none
  value_cmp (suc n) s v w =
      let different = type_cmp (value_cmp n s) s v w in if eq v w then some (pos 0) else different

  -- `Fequal`
  pub equal : ℕ → Store → Value → Value → Option Value
  unfolding value_cmp
  equal n s v w = Option.map (λ r. of_bool (is_zero r)) (value_cmp n s v w)

  module _ (is_number : Value → Bool) (numbers : Value → Value → ℤ) where
    -- `rep_NUMERICP`
    abbrev pub is_numeric : Value → Bool
    is_numeric v = is_int v || is_number v

    -- `rep_compare_numbers`
    pub compare_numbers : Value → Value → ℤ
    unfolding int_cmp
    compare_numbers (fixnum a) (fixnum b) = int_cmp a b
    compare_numbers v w = if is_numeric v && is_numeric w then numbers v w else pos 1

    -- `number_cmp`, which is the compare function of number cells too
    pub number_cmp : Value → Value → ℤ
    unfolding int_cmp
    number_cmp (fixnum a) (fixnum b) = int_cmp a b
    number_cmp v w = if is_numeric v && is_numeric w then other v w else pos 1

    -- `Feql`
    pub eqv : Value → Value → Value
    unfolding number_cmp eq
    eqv v w = of_bool (if is_numeric v && is_numeric w then is_zero (number_cmp v w) else eq v w)

    -- the sign in `APPLY_COMPARISON`, where `rep_NUMBERP` is the test of a number cell
    pub sign : ℕ → Store → Value → Value → Option ℤ
    unfolding compare_numbers value_cmp
    sign n s a b =
        if is_number a || is_number b then some (compare_numbers a b) else value_cmp n s a b

    pub compare_from : (ℤ → Bool) → ℕ → Store → Value → List Value → Option (Result Value)
    unfolding sign compare_with
    compare_from op n s a [] = some (ok truth)
    compare_from op n s a (b ∷ bs) = compare_with op (compare_from op n s b bs) (sign n s a b)

    -- `APPLY_COMPARISON`
    pub apply_comparison : (ℤ → Bool) → ℕ → Store → List Value → Option (Result Value)
    unfolding compare_from
    apply_comparison op n s [] = some (err (missing_arg 1))
    apply_comparison op n s (a ∷ []) = some (err (missing_arg 2))
    apply_comparison op n s (a ∷ b ∷ bs) = compare_from op n s a (b ∷ bs)

    -- `Fnum_eq`, `Fgtthan`, `Fgethan`, `Fltthan` and `Flethan`
    module _ (n : ℕ) (s : Store) (argv : List Value) where
      pub num_eq : Option (Result Value)
      unfolding apply_comparison
      num_eq = apply_comparison is_zero n s argv

      pub greater : Option (Result Value)
      unfolding apply_comparison
      greater = apply_comparison (λ r. not (is_zero r || is_negative r)) n s argv

      pub greater_eq : Option (Result Value)
      unfolding apply_comparison
      greater_eq = apply_comparison (λ r. not (is_negative r)) n s argv

      pub less : Option (Result Value)
      unfolding apply_comparison
      less = apply_comparison is_negative n s argv

      pub less_eq : Option (Result Value)
      unfolding apply_comparison
      less_eq = apply_comparison (λ r. is_zero r || is_negative r) n s argv

      -- `!ret ? 0 : ret == rep_nil ? Qt : rep_nil`
      pub negated : Result Value → Result Value
      negated (err e) = err e
      negated (ok v) = ok (of_bool (is_nil v))

      -- `Fnum_noteq`
      pub num_noteq : Option (Result Value)
      unfolding num_eq negated
      num_noteq = Option.map negated num_eq
