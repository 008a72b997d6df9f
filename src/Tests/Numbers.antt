-- ===== src/Tests/Numbers.antt =====
-- Fixnums at the ends of their range.
use librep.Prelude.{◌≡◌, refl, ◌^◌, ◌-◌, true, false}
use librep.Prelude.Int.{ℤ, pos, negsuc}
use librep.Value.{Value, fixnum, object, ok}
use librep.Numbers.{
  ◌+ℤ◌, neg_ℤ, make_long_int, number_add, number_sub, number_neg, plus1, sub1, quotient, modulo,
}
use librep.Numbers.Fixnums.{fast_paths-exact, is_residue, quotient-exact, modulo-is_residue}

abbrev greatest : ℤ
greatest = pos (2 ^ 61 - 1)

abbrev least : ℤ
least = negsuc (2 ^ 61 - 1)

abbrev cell : ℤ → Value
cell a = object 13 0

abbrev first : Value → Value → Value
first x y = x

fast_paths-exact_example :
    (number_add cell
        (λ v. false)
        first
        first
        first
        first
        first
        (λ x. x)
        (fixnum greatest)
        (fixnum (pos 1))
      ≡ ok (make_long_int cell (greatest +ℤ pos 1)))
    × (number_sub cell
          (λ v. false)
          first
          first
          first
          first
          first
          (λ x. x)
          (fixnum greatest)
          (fixnum (pos 1))
        ≡ ok (make_long_int cell (greatest +ℤ neg_ℤ (pos 1))))
    × (number_neg cell (λ v. false) first first first first first (λ x. x) (fixnum greatest)
        ≡ ok (make_long_int cell (neg_ℤ greatest)))
    × (plus1 cell (λ v. false) first first first first first (λ x. x) (fixnum greatest)
        ≡ ok (make_long_int cell (greatest +ℤ pos 1)))
    × (sub1 cell (λ v. false) first first first first first (λ x. x) (fixnum greatest)
        ≡ ok (make_long_int cell (greatest +ℤ negsuc 0)))
fast_paths-exact_example =
    fast_paths-exact cell (λ v. false) first first first first first (λ x. x) greatest (pos 1)

quotient-exact_example :
    quotient cell
      (λ v. false)
      first
      first
      first
      first
      first
      (λ x. x)
      (fixnum least)
      (fixnum (negsuc 0))
    ≡ ok (fixnum least)
quotient-exact_example =
    quotient-exact cell (λ v. false) first first first first first (λ x. x) least (negsuc 0) refl
      refl

modulo-is_residue_example :
    (c : ℤ) × (modulo cell
        (λ v. false)
        first
        first
        first
        first
        first
        (λ x. x)
        (fixnum (negsuc 6))
        (fixnum (pos 3))
      ≡ ok (fixnum c))
    × (is_residue (pos 3) c ≡ true)
modulo-is_residue_example =
    modulo-is_residue cell (λ v. false) first first first first first (λ x. x) (negsuc 6) (pos 3)
      refl refl
