-- ===== src/Value.antt =====
-- src/rep_lisp.h: Lisp values as the words that `==` compares, the tests of their types, and what a
-- subr returns: a value, or 0 with the error that `rep_throw_value` holds.
use librep.Prelude.{
  ℕ, ◌≡◌, ◌↔◌, refl, Bool, true, false, ◌&&◌, ◌||◌, Option, none, some, arith, ◌==◌,
}
use librep.Prelude.Int.{ℤ, pos, negsuc}

abbrev pub Addr : Type 0
Addr = ℕ

-- `null` is the word 0, which is no Lisp value: it ends a free list.
-- `object` is a cell of another type: its type code and its address.
pub data Value : Type 0 where
  null : Value
  nil : Value
  undefined : Value
  fixnum : ℤ → Value
  symbol : Addr → Value
  cons : Addr → Value
  object : ℕ → Addr → Value

-- The symbol `t`.
abbrev pub truth : Value
truth = symbol 0

unfoldable pub eq_ℤ : ℤ → ℤ → Bool
eq_ℤ (pos a) (pos b) = a == b
eq_ℤ (negsuc a) (negsuc b) = a == b
eq_ℤ _ _ = false

-- `==` on two words.
unfoldable pub eq : Value → Value → Bool
unfolding eq_ℤ
eq null null = true
eq nil nil = true
eq undefined undefined = true
eq (fixnum a) (fixnum b) = eq_ℤ a b
eq (symbol a) (symbol b) = a == b
eq (cons a) (cons b) = a == b
eq (object k a) (object l b) = k == l && a == b
eq _ _ = false

abbrev pub is_cons : Value → Bool
is_cons (cons _) = true
is_cons _ = false

abbrev pub is_nil : Value → Bool
is_nil nil = true
is_nil _ = false

-- `rep_LISTP`
abbrev pub is_list : Value → Bool
is_list v = is_nil v || is_cons v

-- `rep_INTP`
abbrev pub is_int : Value → Bool
is_int (fixnum _) = true
is_int _ = false

abbrev pub is_symbol : Value → Bool
is_symbol (symbol _) = true
is_symbol _ = false

-- `rep_NON_NEG_INT_P`, with the value of `rep_INT`
abbrev pub non_neg_int : Value → Option ℕ
non_neg_int (fixnum (pos n)) = some n
non_neg_int _ = none

-- `b ? Qt : rep_nil`
abbrev pub of_bool : Bool → Value
of_bool true = truth
of_bool false = nil

-- Why a subr returned 0. `thrown` is an error that a called function raised.
pub data Error : Type 0 where
  bad_arg : Value → ℕ → Error
  missing_arg : ℕ → Error
  void_value : Value → Error
  interrupt : Error
  thrown : Error

pub data Result {ℓ} (A : Type ℓ) : Type ℓ where
  ok : A → Result A
  err : Error → Result A

pub eq_ℤ_iff : (a b : ℤ) → (eq_ℤ a b ≡ true) ↔ (a ≡ b)
unfolding eq_ℤ
eq_ℤ_iff a b = ground arith

pub eq_iff : (v w : Value) → (eq v w ≡ true) ↔ (v ≡ w)
unfolding eq
eq_iff v w = ground arith

pub eq_self : (v : Value) → eq v v ≡ true
eq_self v = (eq_iff v v).1 refl
