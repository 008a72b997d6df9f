-- ===== src/Numbers.antt =====
-- src/numbers.c: the arithmetic of fixnums on 64-bit machine words, with its way out into bignums. The
-- word of the fixnum a is 4 a + 2, and HAVE_OVERFLOW_BUILTINS is defined.
pub mod Fixnums
use librep.Prelude.{
  ℕ, zero, suc, ◌+◌, ◌-◌, ◌*◌, ◌/◌, ◌%◌, ◌^◌, Bool, true, false, ◌&&◌, ◌||◌, not, List, [], ◌∷◌,
  if◌then◌else◌, ltb, leb, ◌==◌,
}
use librep.Prelude.Int.{ℤ, pos, negsuc, pos_part, neg_part, sub_ℕ, ◌-ℤ◌, ltb_ℤ}
use librep.Value.{Value, fixnum, is_int, of_bool, Result, ok, err, bad_arg, missing_arg, thrown}

infixl 65 ◌+ℤ◌
abbrev pub ◌+ℤ◌ : ℤ → ℤ → ℤ
a +ℤ b = sub_ℕ (pos_part a + pos_part b) (neg_part a + neg_part b)

abbrev pub neg_ℤ : ℤ → ℤ
neg_ℤ a = sub_ℕ (neg_part a) (pos_part a)

-- The word of a fixnum, and the fixnum of a word: `rep_INT` shifts by two places.
abbrev pub word_of : ℤ → ℤ
word_of (pos n) = pos (4 * n + 2)
word_of (negsuc n) = negsuc (4 * n + 1)

abbrev pub int_of : ℤ → ℤ
int_of (pos w) = pos (w / 4)
int_of (negsuc w) = negsuc (w / 4)

-- The integer is a long: no overflow.
abbrev pub is_long : ℤ → Bool
is_long (pos n) = ltb n (2 ^ 63)
is_long (negsuc n) = ltb n (2 ^ 63)

-- `in >= rep_LISP_MIN_INT && in <= rep_LISP_MAX_INT`
abbrev pub is_fixnum : ℤ → Bool
is_fixnum (pos n) = ltb n (2 ^ 61)
is_fixnum (negsuc n) = ltb n (2 ^ 61)

-- A word of 64 bits, read with its sign.
abbrev pub wrap : ℤ → ℤ
wrap (pos n) = let r = n % 2 ^ 64 in if ltb r (2 ^ 63) then pos r else negsuc (2 ^ 64 - 1 - r)
wrap (negsuc n) = let r = n % 2 ^ 64 in if ltb r (2 ^ 63) then negsuc r else pos (2 ^ 64 - 1 - r)

-- `rep_MAKE_INT` of an intptr_t
abbrev pub make_int : ℤ → Value
make_int a = fixnum (int_of (wrap (word_of a)))

-- C's division of longs, towards zero; the divisor is not 0
abbrev pub quotient_long : ℤ → ℤ → ℤ
quotient_long (pos n) (pos m) = pos (n / m)
quotient_long (pos n) (negsuc m) = sub_ℕ 0 (n / suc m)
quotient_long (negsuc n) (pos m) = sub_ℕ 0 (suc n / m)
quotient_long (negsuc n) (negsuc m) = pos (suc n / suc m)

-- `%`: the sign is the dividend's
abbrev pub remainder_long : ℤ → ℤ → ℤ
remainder_long (pos n) b = pos (n % (pos_part b + neg_part b))
remainder_long (negsuc n) b = sub_ℕ 0 (suc n % (pos_part b + neg_part b))

-- `modulo_int`
abbrev pub modulo_int : ℤ → ℤ → ℤ
modulo_int a b =
    let c = remainder_long a b in
    if (if ltb_ℤ b (pos 0) then ltb_ℤ (pos 0) c else ltb_ℤ c (pos 0)) then c +ℤ b else c

-- `make_long_int`; `big` makes a number cell
pub make_long_int : (ℤ → Value) → ℤ → Value
make_long_int big a = if is_fixnum a then fixnum a else big a

-- `big` makes a number cell with the given integer; `other_add` and the like are the arithmetic of
-- number cells, with fixnums promoted; `is_number` tells the number cells. The arithmetic of numeric
-- arguments has no error.
module _ (big : ℤ → Value) (is_number : Value → Bool)
    (other_add other_sub other_quotient other_remainder other_modulo : Value → Value → Value)
    (other_neg : Value → Value) where
  abbrev is_numeric : Value → Bool
  is_numeric v = is_int v || is_number v

  -- The slow functions on two operands
  pub slow : (Value → Value → Value) → Value → Value → Result Value
  slow op x y =
      if not (is_numeric x)
      then err (bad_arg x 1)
      else if not (is_numeric y)
      then err (bad_arg y 2)
      else ok (op x y)

  -- `rep_number_add`
  pub number_add : Value → Value → Result Value
  unfolding make_long_int slow
  number_add (fixnum a) (fixnum b) =
      let z = word_of a +ℤ (word_of b +ℤ negsuc 1) in
      ok (if is_long z then fixnum (int_of z) else make_long_int big (a +ℤ b))
  number_add x y = slow other_add x y

  -- `rep_number_sub`
  pub number_sub : Value → Value → Result Value
  unfolding make_long_int slow
  number_sub (fixnum a) (fixnum b) =
      let z = word_of a +ℤ neg_ℤ (word_of b +ℤ negsuc 1) in
      ok (if is_long z then fixnum (int_of z) else make_long_int big (a +ℤ neg_ℤ b))
  number_sub x y = slow other_sub x y

  -- `rep_number_neg`
  pub number_neg : Value → Result Value
  unfolding make_long_int
  number_neg (fixnum a) =
      let z = pos 4 +ℤ neg_ℤ (word_of a) in
      ok (if is_long z then fixnum (int_of z) else make_long_int big (neg_ℤ a))
  number_neg x = if is_number x then ok (other_neg x) else err (bad_arg x 1)

  -- `Fplus1` and `Fsub1`
  pub plus1 : Value → Result Value
  unfolding make_long_int slow
  plus1 (fixnum a) =
      let z = word_of a +ℤ pos 4 in
      ok (if is_long z then fixnum (int_of z) else make_long_int big (a +ℤ pos 1))
  plus1 x = slow other_add x (fixnum (pos 1))

  pub sub1 : Value → Result Value
  unfolding make_long_int slow
  sub1 (fixnum a) =
      let z = word_of a +ℤ negsuc 3 in
      ok (if is_long z then fixnum (int_of z) else make_long_int big (a +ℤ negsuc 0))
  sub1 x = slow other_sub x (fixnum (pos 1))

  -- The loop of `number_foldv`, with the place of the next argument
  pub fold_numbers : (Value → Value → Result Value) → ℕ → Value → List Value → Result Value
  fold_numbers op i sum [] = ok sum
  fold_numbers op i sum (v ∷ vs) =
      let next : Value → Result Value = λ s. fold_numbers op (i + 1) s vs in
      if is_numeric v then elim (op sum v) [ ok s ↦ next s | err e ↦ err e ] else err (bad_arg v i)

  -- `number_foldv`
  pub number_foldv : (Value → Value → Result Value) → List Value → Result Value
  unfolding fold_numbers
  number_foldv op [] = err (missing_arg 1)
  number_foldv op (v ∷ vs) = if is_numeric v then fold_numbers op 2 v vs else err (bad_arg v 1)

  -- `Fplus`
  pub plus : List Value → Result Value
  unfolding number_add number_foldv
  plus [] = ok (fixnum (pos 0))
  plus (x ∷ y ∷ []) = number_add x y
  plus vs = number_foldv number_add vs

  -- `Fminus`
  pub minus : List Value → Result Value
  unfolding number_sub number_neg number_foldv
  minus [] = err (missing_arg 1)
  minus (x ∷ []) = number_neg x
  minus (x ∷ y ∷ []) = number_sub x y
  minus vs = number_foldv number_sub vs

  -- Two fixnums, the second not 0; else the slow function, whose error for 0 is thrown
  pub divide : (ℤ → ℤ → ℤ) → (Value → Value → Value) → Value → Value → Result Value
  unfolding slow
  divide long op (fixnum a) (fixnum (pos zero)) = err thrown
  divide long op (fixnum a) (fixnum b) = ok (make_int (long a b))
  divide long op x y = slow op x y

  -- `Fquotient`, `Fremainder` and `Fmod`
  pub quotient : Value → Value → Result Value
  unfolding divide
  quotient x y = divide quotient_long other_quotient x y

  pub remainder : Value → Value → Result Value
  unfolding divide
  remainder x y = divide remainder_long other_remainder x y

  pub modulo : Value → Value → Result Value
  unfolding divide
  modulo x y = divide modulo_int other_modulo x y
