-- ===== src/Lists/Access.antt =====
-- src/lists.c: constructors, accessors and predicates.
pub mod Built
use librep.Prelude.{ℕ, zero, suc, Bool, true, false, Option, none, some, List, [], ◌∷◌}
use librep.Value.{
  Addr, Value, nil, cons, fixnum, undefined, is_cons, is_list, is_nil, non_neg_int, of_bool, Error,
  bad_arg, Result, ok, err,
}
use librep.Heap.{Store, set_car_of, set_cdr_of, make_cons}

-- `Fcons`, as a value
pub cons_of : Store → Value → Value → Value × Store
cons_of s x y = let (c, s') = make_cons s x y in (cons c, s')

-- `Fcar` and `Fcdr`
unfoldable pub car : Store → Value → Value
car s (cons a) = s.car a
car s _ = nil

unfoldable pub cdr : Store → Value → Value
cdr s (cons a) = s.cdr a
cdr s _ = nil

-- `Fset_car` and `Fset_cdr`
pub set_car : Store → Value → Value → Result Value × Store
set_car s (cons a) x = (ok undefined, set_car_of s a x)
set_car s v x = (err (bad_arg v 1), s)

pub set_cdr : Store → Value → Value → Result Value × Store
set_cdr s (cons a) x = (ok undefined, set_cdr_of s a x)
set_cdr s v x = (err (bad_arg v 1), s)

-- The loop of `Flist` and `Flist_star`: the arguments are consed onto `tail`, the last one first.
pub cons_onto : Store → List Value → Value → Value × Store
unfolding cons_of
cons_onto s [] tail = (tail, s)
cons_onto s (x ∷ xs) tail = let (l, s') = cons_onto s xs tail in cons_of s' x l

-- `Flist`; `rep_list_1` to `rep_list_5` are its cases of one to five arguments
pub list : Store → List Value → Value × Store
unfolding cons_onto
list s argv = cons_onto s argv nil

-- `Flist_star`, from its first argument and the others
pub star_onto : Store → Value → List Value → Value × Store
unfolding cons_of
star_onto s x [] = (x, s)
star_onto s x (y ∷ ys) = let (l, s') = star_onto s y ys in cons_of s' x l

pub list_star : Store → List Value → Value × Store
unfolding star_onto
list_star s [] = (nil, s)
list_star s (x ∷ xs) = star_onto s x xs

-- `Fmake_list`
pub make_list_loop : ℕ → Value → Value → Store → Value × Store
unfolding cons_of
make_list_loop zero init l s = (l, s)
make_list_loop (suc k) init l s = let (l', s') = cons_of s init l in make_list_loop k init l' s'

pub make_list : Store → Value → Value → Result Value × Store
unfolding make_list_loop
make_list s len init = elim (non_neg_int len) [
  | none ↦ (err (bad_arg len 1), s)
  | some k ↦ let (l, s') = make_list_loop k init nil s in (ok l, s')
]

-- `Fnull`, `Fatom`, `Fconsp` and `Flistp`
pub null : Value → Value
null v = of_bool (is_nil v)

pub atom : Value → Value
atom (cons a) = nil
atom v = of_bool true

pub consp : Value → Value
consp v = of_bool (is_cons v)

pub listp : Value → Value
listp v = of_bool (is_list v)
