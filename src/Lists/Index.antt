-- ===== src/Lists/Index.antt =====
-- src/lists.c: rep_list_length, list-length, list-ref, list-tail and last.
pub mod Positions
use librep.Prelude.{ℕ, zero, suc, ◌+◌, Option, none, some, if◌then◌else◌}
use librep.Prelude.Int.{pos}
use librep.Value.{
  Value, nil, cons, fixnum, is_list, non_neg_int, Error, bad_arg, interrupt, Result, ok, err,
}
use librep.Loop.{Round, leave, again, poll_loop, no_rest}
use librep.Heap.{Store}
use librep.Lists.Access.{car}

pub length_step : Store → Value × ℕ → Round (Value × ℕ) (Option ℕ)
length_step s (cons a, i) = again (s.cdr a, i + 1)
length_step s (_, i) = leave (some i)

-- `rep_list_length`; `none` stands for -1
pub list_length : ℕ → Store → Value → Option ℕ
unfolding length_step poll_loop
list_length n s l = (poll_loop (length_step s) no_rest (λ _. none) n (l, 0)).0

-- `Flist_length`
pub flist_length : ℕ → Store → Value → Result Value
unfolding list_length
flist_length n s l =
    if is_list l
    then elim (list_length n s l) [ none ↦ err interrupt | some k ↦ ok (fixnum (pos k)) ]
    else err (bad_arg l 1)

-- `while (i-- > 0 && rep_CONSP(list)) list = rep_CDR(list);`
pub tail_step : Store → Value × ℕ → Round (Value × ℕ) (Result Value)
tail_step s (cons a, suc i) = again (s.cdr a, i)
tail_step s (l, i) = leave (ok l)

pub walk_tail : ℕ → Store → Value → ℕ → Result Value
unfolding tail_step poll_loop
walk_tail n s l i = (poll_loop (tail_step s) no_rest (λ _. err interrupt) n (l, i)).0

-- `Flist_tail`
pub list_tail : ℕ → Store → Value → Value → Result Value
unfolding walk_tail
list_tail n s l index =
    if is_list l
    then elim (non_neg_int index) [ none ↦ err (bad_arg index 2) | some i ↦ walk_tail n s l i ]
    else err (bad_arg l 1)

-- `Flist_ref`: the loop of `list-tail` is left with a cons only when the index has run out
pub list_ref : ℕ → Store → Value → Value → Result Value
unfolding walk_tail car
list_ref n s l index =
    if is_list l
    then elim (non_neg_int index) [
      | none ↦ err (bad_arg index 2)
      | some i ↦ elim (walk_tail n s l i) [ ok v ↦ ok (car s v) | err e ↦ err e ]
    ]
    else err (bad_arg l 1)

-- `while (rep_CONSP(rep_CDR(list))) list = rep_CDR(list);` from the cell `a` on, by its cdr
pub last_at : Store → ℕ → Value → Round ℕ (Result Value)
last_at s a (cons b) = again b
last_at s a _ = leave (ok (s.car a))

pub last_step : Store → ℕ → Round ℕ (Result Value)
unfolding last_at
last_step s a = last_at s a (s.cdr a)

-- `Flast`
pub last : ℕ → Store → Value → Result Value
unfolding last_step poll_loop
last n s nil = ok nil
last n s (cons a) = (poll_loop (last_step s) no_rest (λ _. err interrupt) n a).0
last n s v = err (bad_arg v 1)
