-- ===== src/Lists/Access/Built.antt =====
-- The constructors of lists build new cells.
use librep.Prelude.{ℕ, zero, suc, ◌≡◌, refl, ap, List, [], ◌∷◌, ◌++◌, replicate}
use mathlib.Core.List.{append-nil}
use mathlib.Core.Path.{subst}
use librep.Prelude.Int.{pos}
use librep.Value.{Addr, Value, nil, cons, fixnum}
use librep.Heap.{Store, make_cons}
use librep.Heap.Alloc.{IsValid}
use librep.Heap.Tail.Grown.{NewList, NewList-nil, NewList-cons, Returns}
use librep.Lists.Access.{cons_of, cons_onto, list, star_onto, list_star, make_list_loop, make_list}

replicate-snoc {ℓ} :
    {A : Type ℓ} (k : ℕ) (a : A) (xs : List A) → replicate k a ++ a ∷ xs ≡ replicate (suc k) a ++ xs
replicate-snoc zero a xs = refl
replicate-snoc (suc k) a xs = ap (λ ys. a ∷ ys) (replicate-snoc k a xs)

abbrev pub but_last : Value → List Value → List Value
but_last x [] = []
but_last x (y ∷ ys) = x ∷ but_last y ys

abbrev pub last_of : Value → List Value → Value
last_of x [] = x
last_of x (y ∷ ys) = last_of y ys

module _ (s : Store) (fs : List Addr) (valid : IsValid s fs) where
  cons_onto-NewList :
      (xs : List Value) (tail : Value)
      → NewList s fs xs tail (cons_onto s xs tail).0 (cons_onto s xs tail).1
  unfolding cons_onto cons_of
  cons_onto-NewList [] tail = NewList-nil s fs tail valid
  cons_onto-NewList (x ∷ xs) tail =
      NewList-cons s fs xs tail (cons_onto s xs tail).0 (cons_onto s xs tail).1 x
        (cons_onto-NewList xs tail)

  -- `list` returns a list of new cells with its arguments, which ends in nil; no live cell is changed.
  pub list-NewList : (argv : List Value) → NewList s fs argv nil (list s argv).0 (list s argv).1
  unfolding list
  list-NewList argv = cons_onto-NewList argv nil

  star_onto-NewList :
      (x : Value) (xs : List Value)
      → NewList s fs (but_last x xs) (last_of x xs) (star_onto s x xs).0 (star_onto s x xs).1
  unfolding star_onto cons_of
  star_onto-NewList x [] = NewList-nil s fs x valid
  star_onto-NewList x (y ∷ ys) =
      NewList-cons s fs (but_last y ys) (last_of y ys) (star_onto s y ys).0 (star_onto s y ys).1 x
        (star_onto-NewList y ys)

  -- `list*` returns a list of new cells with all arguments but the last, which ends in the last.
  pub list_star-NewList :
      (x : Value) (xs : List Value)
      → NewList s fs
          (but_last x xs)
          (last_of x xs)
          (list_star s (x ∷ xs)).0
          (list_star s (x ∷ xs)).1
  unfolding list_star
  list_star-NewList x xs = star_onto-NewList x xs

  make_list_loop-NewList :
      (k : ℕ) (init l : Value) (t : Store) (xs : List Value)
      → NewList s fs xs nil l t
      → NewList s fs
          (replicate k init ++ xs)
          nil
          (make_list_loop k init l t).0
          (make_list_loop k init l t).1
  unfolding make_list_loop cons_of
  make_list_loop-NewList zero init l t xs h = h
  make_list_loop-NewList (suc k) init l t xs h =
      subst
        (λ ys.
          NewList s fs ys nil (make_list_loop (suc k) init l t).0
            (make_list_loop (suc k) init l t).1)
        (replicate-snoc k init xs)
        (make_list_loop-NewList k init (cons (make_cons t init l).0) (make_cons t init l).1
          (init ∷ xs) (NewList-cons s fs xs nil l t init h))

  -- `make-list` of a length that is no negative fixnum returns a list of so many new cells with the
  -- given element.
  pub make_list-Returns :
      (k : ℕ) (init : Value)
      → Returns s fs (replicate k init) nil (make_list s (fixnum (pos k)) init)
  unfolding make_list
  make_list-Returns k init = record {
    value = (make_list_loop k init nil s).0;
    result = refl;
    list =
        rw (append-nil (replicate k init)) at
          (make_list_loop-NewList k init nil s [] (NewList-nil s fs nil valid));
  }
