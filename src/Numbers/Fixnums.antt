-- ===== src/Numbers/Fixnums.antt =====
-- The fast paths of fixnum arithmetic give the exact results, but for one quotient.
use librep.Prelude.{
  zero, suc, ◌-◌, ◌/◌, ◌%◌, ◌^◌, ◌<◌, ◌≡◌, refl, ap, ◌∙◌, Bool, true, false, arith, if◌then◌else◌,
  ltb, Bool-cases, inl, inr, ◌==◌,
}
use native.Mathlib.Nat.{div-le_self, div-lt_self, mod-lt}
use librep.Prelude.Int.{ℤ, pos, negsuc}
use librep.Value.{Value, fixnum, ok}
use librep.Numbers.{
  ◌+ℤ◌, neg_ℤ, word_of, int_of, is_long, is_fixnum, wrap, make_int, quotient_long, modulo_int,
  modulo, make_long_int, number_add, number_sub, number_neg, plus1, sub1, divide, quotient,
}

-- The sum of two words is the word of the sum, and it is a long exactly where that is a fixnum.
add_words : (a b : ℤ) → word_of a +ℤ (word_of b +ℤ negsuc 1) ≡ word_of (a +ℤ b)
add_words (pos a) (pos b) = ground arith
add_words (pos a) (negsuc b) = ground arith
add_words (negsuc a) (pos b) = ground arith
add_words (negsuc a) (negsuc b) = ground arith

is_long-word_of : (a : ℤ) → is_long (word_of a) ≡ is_fixnum a
is_long-word_of (pos n) = ground arith
is_long-word_of (negsuc n) = ground arith

int_of-word_of : (a : ℤ) → int_of (word_of a) ≡ a
int_of-word_of (pos n) = ap pos (omega arith)
int_of-word_of (negsuc n) = ap negsuc (omega arith)

sub_words : (a b : ℤ) → word_of a +ℤ neg_ℤ (word_of b +ℤ negsuc 1) ≡ word_of (a +ℤ neg_ℤ b)
sub_words (pos a) (pos b) = ground arith
sub_words (pos a) (negsuc b) = ground arith
sub_words (negsuc a) (pos b) = ground arith
sub_words (negsuc a) (negsuc b) = ground arith

neg_words : (a : ℤ) → pos 4 +ℤ neg_ℤ (word_of a) ≡ word_of (neg_ℤ a)
neg_words (pos a) = ground arith
neg_words (negsuc a) = ground arith

plus1_words : (a : ℤ) → word_of a +ℤ pos 4 ≡ word_of (a +ℤ pos 1)
plus1_words (pos a) = ground arith
plus1_words (negsuc a) = ground arith

sub1_words : (a : ℤ) → word_of a +ℤ negsuc 3 ≡ word_of (a +ℤ negsuc 0)
sub1_words (pos a) = ground arith
sub1_words (negsuc a) = ground arith

-- A word that overflows takes the slow way, with the result of `make_long_int`.
exact :
    (big : ℤ → Value) (z c : ℤ)
    → z ≡ word_of c
    → (if is_long z then fixnum (int_of z) else make_long_int big c) ≡ make_long_int big c
unfolding make_long_int
exact big z c e =
    rw (e, is_long-word_of c)
      (elim (Bool-cases (is_fixnum c)) [
        | inl f ↦ rw f (ap fixnum (int_of-word_of c))
        | inr f ↦ rw f refl
      ])

module _ (big : ℤ → Value) (is_number : Value → Bool)
    (add sub quot rest modulus : Value → Value → Value) (neg : Value → Value) where
  -- The fast paths of `+`, `-`, the negation, `1+` and `1-` on the words of fixnums give the exact
  -- integer: as a fixnum where it is one, and as a bignum elsewhere.
  pub fast_paths-exact :
      (a b : ℤ)
      → (number_add big is_number add sub quot rest modulus neg (fixnum a) (fixnum b)
          ≡ ok (make_long_int big (a +ℤ b)))
        × (number_sub big is_number add sub quot rest modulus neg (fixnum a) (fixnum b)
            ≡ ok (make_long_int big (a +ℤ neg_ℤ b)))
        × (number_neg big is_number add sub quot rest modulus neg (fixnum a)
            ≡ ok (make_long_int big (neg_ℤ a)))
        × (plus1 big is_number add sub quot rest modulus neg (fixnum a)
            ≡ ok (make_long_int big (a +ℤ pos 1)))
        × (sub1 big is_number add sub quot rest modulus neg (fixnum a)
            ≡ ok (make_long_int big (a +ℤ negsuc 0)))
  unfolding number_add number_sub number_neg plus1 sub1
  fast_paths-exact a b = (
    ap ok (exact big _ (a +ℤ b) (add_words a b)),
    ap ok (exact big _ (a +ℤ neg_ℤ b) (sub_words a b)),
    ap ok (exact big _ (neg_ℤ a) (neg_words a)),
    ap ok (exact big _ (a +ℤ pos 1) (plus1_words a)),
    ap ok (exact big _ (a +ℤ negsuc 0) (sub1_words a)),
  )

wrap_long : (z : ℤ) → is_long z ≡ true → wrap z ≡ z
wrap_long (pos n) h = ground arith
wrap_long (negsuc n) h = ground arith

-- `rep_MAKE_INT` of a long that is a fixnum.
make_int_lem : (a : ℤ) → is_fixnum a ≡ true → make_int a ≡ fixnum a
make_int_lem a h =
    ap (λ z. fixnum (int_of z)) (wrap_long (word_of a) (is_long-word_of a ∙ h))
    ∙ ap fixnum (int_of-word_of a)

-- The least fixnum divided by -1
abbrev pub is_overflow : ℤ → ℤ → Bool
is_overflow (negsuc n) (negsuc zero) = n == 2 ^ 61 - 1
is_overflow _ _ = false

abbrev pub is_zero_int : ℤ → Bool
is_zero_int (pos zero) = true
is_zero_int _ = false

divide-long :
    (big : ℤ → Value) (is_number : Value → Bool) (add sub quot rest modulus : Value → Value → Value)
    (neg : Value → Value) (long : ℤ → ℤ → ℤ) (op : Value → Value → Value) (a b : ℤ)
    → is_zero_int b ≡ false
    → divide big is_number add sub quot rest modulus neg long op (fixnum a) (fixnum b)
      ≡ ok (make_int (long a b))
unfolding divide
divide-long big is_number add sub quot rest modulus neg long op a (pos zero) z =
    absurd (ground arith)
divide-long big is_number add sub quot rest modulus neg long op a (pos (suc m)) z = refl
divide-long big is_number add sub quot rest modulus neg long op a (negsuc m) z = refl

is_fixnum-quotient_long :
    (a b : ℤ) → is_fixnum a ≡ true → is_overflow a b ≡ false → is_fixnum (quotient_long a b) ≡ true
is_fixnum-quotient_long (pos n) (pos m) h o = ground (arith, div-le_self n m)
is_fixnum-quotient_long (pos n) (negsuc m) h o = ground (arith, div-le_self n (suc m))
is_fixnum-quotient_long (negsuc n) (pos m) h o = ground (arith, div-le_self (suc n) m)
is_fixnum-quotient_long (negsuc n) (negsuc zero) h o = ground (arith, div-le_self (suc n) 1)
is_fixnum-quotient_long (negsuc n) (negsuc (suc m)) h o =
    let small : suc n / suc (suc m) < suc n = div-lt_self (omega arith) (omega arith) in
    ground arith

overflowed :
    (a b : ℤ) → is_overflow a b ≡ true → make_int (quotient_long a b) ≡ fixnum (negsuc (2 ^ 61 - 1))
overflowed (negsuc n) (negsuc zero) h = let least : n ≡ 2 ^ 61 - 1 = ground arith in rw least refl
overflowed (negsuc n) (negsuc (suc m)) h = absurd (ground arith)
overflowed (negsuc n) (pos m) h = absurd (ground arith)
overflowed (pos n) b h = absurd (ground arith)

-- `quotient` of two fixnums is their quotient, rounded towards 0, but for the least fixnum divided by
-- -1: that gives the least fixnum. The divisor is not 0.
pub quotient-exact :
    (big : ℤ → Value) (is_number : Value → Bool) (add sub quot rest modulus : Value → Value → Value)
    (neg : Value → Value) (a b : ℤ)
    → is_fixnum a ≡ true
    → is_zero_int b ≡ false
    → quotient big is_number add sub quot rest modulus neg (fixnum a) (fixnum b)
      ≡ ok (fixnum (if is_overflow a b then negsuc (2 ^ 61 - 1) else quotient_long a b))
unfolding quotient
quotient-exact big is_number add sub quot rest modulus neg a b h z =
    divide-long big is_number add sub quot rest modulus neg quotient_long quot a b z
    ∙ ap ok (elim (Bool-cases (is_overflow a b)) [
      | inl o ↦ rw o (overflowed a b o)
      | inr o ↦ rw o (make_int_lem (quotient_long a b) (is_fixnum-quotient_long a b h o))
    ])

-- A remainder with the sign of the divisor, and nearer to 0.
abbrev pub is_residue : ℤ → ℤ → Bool
is_residue (pos m) (pos r) = ltb r m
is_residue (pos m) (negsuc r) = false
is_residue (negsuc m) (pos zero) = true
is_residue (negsuc m) (pos (suc r)) = false
is_residue (negsuc m) (negsuc r) = ltb r m

modulo_int-is_residue : (a b : ℤ) → is_zero_int b ≡ false → is_residue b (modulo_int a b) ≡ true
modulo_int-is_residue a (pos zero) z = absurd (ground arith)
modulo_int-is_residue (pos n) (pos (suc m)) z =
    let small : n % suc m < suc m = mod-lt n (omega arith) in ground arith
modulo_int-is_residue (negsuc n) (pos (suc m)) z =
    let small : suc n % suc m < suc m = mod-lt (suc n) (omega arith) in ground arith
modulo_int-is_residue (pos n) (negsuc m) z =
    let small : n % suc m < suc m = mod-lt n (omega arith) in ground arith
modulo_int-is_residue (negsuc n) (negsuc m) z =
    let small : suc n % suc m < suc m = mod-lt (suc n) (omega arith) in ground arith

is_fixnum-is_residue : (b c : ℤ) → is_fixnum b ≡ true → is_residue b c ≡ true → is_fixnum c ≡ true
is_fixnum-is_residue (pos m) (pos r) h i = ground arith
is_fixnum-is_residue (pos m) (negsuc r) h i = absurd (ground arith)
is_fixnum-is_residue (negsuc m) (pos zero) h i = ground arith
is_fixnum-is_residue (negsuc m) (pos (suc r)) h i = absurd (ground arith)
is_fixnum-is_residue (negsuc m) (negsuc r) h i = ground arith

-- `modulo` of two fixnums is a fixnum with the sign of the divisor, and nearer to 0 than it. The divisor
-- is not 0.
pub modulo-is_residue :
    (big : ℤ → Value) (is_number : Value → Bool) (add sub quot rest modulus : Value → Value → Value)
    (neg : Value → Value) (a b : ℤ)
    → is_fixnum b ≡ true
    → is_zero_int b ≡ false
    → (c : ℤ) × (modulo big is_number add sub quot rest modulus neg (fixnum a) (fixnum b)
        ≡ ok (fixnum c))
      × (is_residue b c ≡ true)
unfolding modulo
modulo-is_residue big is_number add sub quot rest modulus neg a b h z =
    let c = modulo_int a b in
    let near = modulo_int-is_residue a b z in
    (
      c,
      divide-long big is_number add sub quot rest modulus neg modulo_int modulus a b z
          ∙ ap ok (make_int_lem c (is_fixnum-is_residue b c h near)),
      near,
    )
