-- ===== src/Lists/Search.antt =====
-- src/lists.c: assoc, assq, assv, rassoc, rassq, rassv, member, memq and memv.
pub mod First
use librep.Prelude.{ℕ, Bool, true, false, ◌||◌, List, [], ◌∷◌, if◌then◌else◌}
use librep.Value.{Addr, Value, nil, cons, eq, is_list, Error, bad_arg, interrupt, Result, ok, err}
use librep.Loop.{Round, leave, again, poll_loop, no_rest}
use librep.Heap.{Store}

-- One round of the loops below: `hit` is the test of a cell, and `found` what is returned for it.
pub scan_step : Store → (Addr → Bool) → (Addr → Value) → Value → Round Value (Result Value)
scan_step s hit found (cons a) = if hit a then leave (ok (found a)) else again (s.cdr a)
scan_step s hit found _ = leave (ok nil)

-- The loop, behind `rep_DECLARE2(list, rep_LISTP)`.
pub scan : ℕ → Store → (Addr → Bool) → (Addr → Value) → Value → Result Value
unfolding scan_step poll_loop
scan n s hit found l =
    if is_list l
    then (poll_loop (scan_step s hit found) no_rest (λ _. err interrupt) n l).0
    else err (bad_arg l 2)

-- `rep_CONSP(car) && ...` for the car of a cell of the list
pub pair_with : (Addr → Bool) → Value → Bool
pair_with test (cons b) = test b
pair_with test _ = false

module _ (s : Store) (same : Value → Value → Bool) (elt : Value) where
  pub car_hit : Addr → Bool
  unfolding pair_with
  car_hit a = pair_with (λ b. same elt (s.car b)) (s.car a)

  pub cdr_hit : Addr → Bool
  unfolding pair_with
  cdr_hit a = pair_with (λ b. same elt (s.cdr b)) (s.car a)

  pub member_hit : Addr → Bool
  member_hit a = same elt (s.car a)

-- `equal` stands for `!rep_value_cmp(...)` in the store at hand.
module _ (equal : Store → Value → Value → Bool) (n : ℕ) (s : Store) (elt l : Value) where
  pub assoc : Result Value
  unfolding scan car_hit
  assoc = scan n s (car_hit s (equal s) elt) s.car l

  pub rassoc : Result Value
  unfolding scan cdr_hit
  rassoc = scan n s (cdr_hit s (equal s) elt) s.car l

  pub member : Result Value
  unfolding scan member_hit
  member = scan n s (member_hit s (equal s) elt) cons l

-- `eqv` stands for `Feql(...) != rep_nil`.
module _ (eqv : Value → Value → Bool) (n : ℕ) (s : Store) (elt l : Value) where
  pub assv : Result Value
  unfolding scan car_hit
  assv = scan n s (car_hit s eqv elt) s.car l

  pub rassv : Result Value
  unfolding scan cdr_hit
  rassv = scan n s (cdr_hit s eqv elt) s.car l

  pub memv : Result Value
  unfolding scan member_hit eq
  memv = scan n s (member_hit s (λ x y. eq x y || eqv x y) elt) cons l

module _ (n : ℕ) (s : Store) (elt l : Value) where
  pub assq : Result Value
  unfolding scan car_hit eq
  assq = scan n s (car_hit s eq elt) s.car l

  pub rassq : Result Value
  unfolding scan cdr_hit eq
  rassq = scan n s (cdr_hit s eq elt) s.car l

  pub memq : Result Value
  unfolding scan member_hit eq
  memq = scan n s (member_hit s eq elt) cons l
