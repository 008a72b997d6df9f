-- ===== src/Compare/Fixnums.antt =====
-- The comparison of fixnums by a difference that is cut to an int.
use librep.Prelude.{
  ℕ, suc, ◌+◌, ◌^◌, ◌≤◌, ◌<◌, ◌≡◌, refl, ap, arith, Bool, true, false, ◌&&◌, ◌||◌, not, List, [],
  ◌∷◌, map, some, ◌==◌, ◌∙◌, sym, if◌then◌else◌, Bool-cases, inl, inr,
}
use librep.Prelude.Int.{ℤ, pos, pos_part, neg_part, ltb_ℤ, ◌-ℤ◌}
use librep.Value.{Value, fixnum, of_bool, eq, eq_ℤ, ok}
use librep.Heap.{Store}
use librep.Compare.{
  low_bits, int_cmp, is_zero, is_negative, type_cmp, value_cmp, sign, compare_from, compare_with,
  apply_comparison, num_eq, greater, greater_eq, less, less_eq,
}

-- The difference of two fixnums is 0 as an int exactly if their low 32 bits are the same.
pub int_cmp-zero : (a b : ℤ) → is_zero (int_cmp a b) ≡ (low_bits a == low_bits b)
unfolding int_cmp ◌-ℤ◌
int_cmp-zero a b = ground arith

-- The difference `a - b` is one of an int.
abbrev pub Near : ℤ → ℤ → Type 0
Near a b =
    (pos_part a + neg_part b < pos_part b + neg_part a + 2 ^ 31)
    × (pos_part b + neg_part a ≤ pos_part a + neg_part b + 2 ^ 31)

abbrev pub AllNear : ℤ → List ℤ → Type 0
AllNear a [] = Unit
AllNear a (b ∷ bs) = Near a b × AllNear b bs

int_cmp-is_zero : (a b : ℤ) → Near a b → is_zero (int_cmp a b) ≡ eq_ℤ a b
unfolding int_cmp ◌-ℤ◌ eq_ℤ
int_cmp-is_zero a b h = ground arith

int_cmp-is_negative : (a b : ℤ) → Near a b → is_negative (int_cmp a b) ≡ ltb_ℤ a b
unfolding int_cmp ◌-ℤ◌
int_cmp-is_negative a b h = ground arith

int_cmp-same : (a b : ℤ) → eq_ℤ a b ≡ true → int_cmp a b ≡ pos 0
unfolding int_cmp ◌-ℤ◌ eq_ℤ
int_cmp-same a b h = ground arith

not_positive :
    (a b : ℤ) → Near a b → (is_zero (int_cmp a b) || is_negative (int_cmp a b)) ≡ not (ltb_ℤ b a)
unfolding int_cmp ◌-ℤ◌
not_positive a b h = ground arith

positive :
    (a b : ℤ) → Near a b → not (is_zero (int_cmp a b) || is_negative (int_cmp a b)) ≡ ltb_ℤ b a
positive a b h = ap not (not_positive a b h) ∙ not_not (ltb_ℤ b a)
  where
    not_not : (x : Bool) → not (not x) ≡ x
    not_not x = ground arith

-- Every number stands in the relation to the next.
abbrev pub ordered : (ℤ → ℤ → Bool) → ℤ → List ℤ → Bool
ordered r a [] = true
ordered r a (b ∷ bs) = r a b && ordered r b bs

module _ (other : Value → Value → ℤ) (is_number : Value → Bool) (numbers : Value → Value → ℤ)
    (cells : (a : ℤ) → is_number (fixnum a) ≡ false) (n : ℕ) (s : Store) where
  sign-fixnums :
      (a b : ℤ) → sign other is_number numbers (suc n) s (fixnum a) (fixnum b) ≡ some (int_cmp a b)
  unfolding sign value_cmp type_cmp eq
  sign-fixnums a b =
      rw (cells a, cells b)
        (elim (Bool-cases (eq_ℤ a b)) [
          | inl e ↦ rw e (ap some (sym (int_cmp-same a b e)))
          | inr e ↦ rw e refl
        ])

  compare_from-ordered :
      (op : ℤ → Bool) (r : ℤ → ℤ → Bool)
      → ((a b : ℤ) → Near a b → op (int_cmp a b) ≡ r a b)
      → (a : ℤ) (bs : List ℤ) → AllNear a bs
      → compare_from other is_number numbers op (suc n) s (fixnum a) (map fixnum bs)
        ≡ some (ok (of_bool (ordered r a bs)))
  unfolding compare_from compare_with
  compare_from-ordered op r h a [] near = refl
  compare_from-ordered op r h a (b ∷ bs) near =
      ap
        (compare_with op
          (compare_from other is_number numbers op (suc n) s (fixnum b) (map fixnum bs)))
        (sign-fixnums a b)
      ∙ rw (h a b near.0, compare_from-ordered op r h b bs near.1)
          (and_then (r a b) (ordered r b bs))
    where
      and_then :
          (p q : Bool)
          → (if p then some (ok (of_bool q)) else some (ok (of_bool false)))
            ≡ some (ok (of_bool (p && q)))
      and_then p q = ground arith

  -- `=`, `<`, `>`, `<=` and `>=` of two or more fixnums, each so close to the next that the difference
  -- is an int: `t` if every fixnum stands in the relation to the next, else nil.
  -- A fixnum is no number cell.
  pub comparisons-ordered :
      (a b : ℤ) (bs : List ℤ)
      → AllNear a (b ∷ bs)
      → (num_eq other is_number numbers (suc n) s (map fixnum (a ∷ b ∷ bs))
          ≡ some (ok (of_bool (ordered eq_ℤ a (b ∷ bs)))))
        × (less other is_number numbers (suc n) s (map fixnum (a ∷ b ∷ bs))
            ≡ some (ok (of_bool (ordered ltb_ℤ a (b ∷ bs)))))
        × (greater other is_number numbers (suc n) s (map fixnum (a ∷ b ∷ bs))
            ≡ some (ok (of_bool (ordered (λ x y. ltb_ℤ y x) a (b ∷ bs)))))
        × (less_eq other is_number numbers (suc n) s (map fixnum (a ∷ b ∷ bs))
            ≡ some (ok (of_bool (ordered (λ x y. not (ltb_ℤ y x)) a (b ∷ bs)))))
        × (greater_eq other is_number numbers (suc n) s (map fixnum (a ∷ b ∷ bs))
            ≡ some (ok (of_bool (ordered (λ x y. not (ltb_ℤ x y)) a (b ∷ bs)))))
  unfolding num_eq less greater less_eq greater_eq apply_comparison
  comparisons-ordered a b bs near = (
    compare_from-ordered is_zero eq_ℤ int_cmp-is_zero a (b ∷ bs) near,
    compare_from-ordered is_negative ltb_ℤ int_cmp-is_negative a (b ∷ bs) near,
    compare_from-ordered (λ r. not (is_zero r || is_negative r)) (λ x y. ltb_ℤ y x) positive a
        (b ∷ bs) near,
    compare_from-ordered (λ r. is_zero r || is_negative r) (λ x y. not (ltb_ℤ y x)) not_positive a
        (b ∷ bs) near,
    compare_from-ordered (λ r. not (is_negative r)) (λ x y. not (ltb_ℤ x y))
        (λ x y h. ap not (int_cmp-is_negative x y h)) a (b ∷ bs) near,
  )
