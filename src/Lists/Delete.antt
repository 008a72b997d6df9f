-- ===== src/Lists/Delete.antt =====
-- src/lists.c: delete!, delq!, delete-if! and delete-if-not!, which unlink cells through a pointer to
-- the place that holds the next cell.
pub mod Editing
pub mod Unlinking
pub mod Remaining
use librep.Prelude.{ℕ, Bool, true, false, List, [], ◌∷◌, if◌then◌else◌, not}
use librep.Value.{
  Addr, Value, nil, cons, eq, is_list, is_nil, Error, bad_arg, interrupt, Result, ok, err,
}
use librep.Loop.{Round, leave, again, poll_loop, no_rest}
use librep.Heap.{Store}
use librep.Heap.Tail.{Out, read_last, write_last, move_to}
use librep.Lists.Copy.{start}

-- One round at the cell that the pointer holds: unlink it, or move past it.
pub unlink_at : (Store → Addr → Bool) → Out → Value → Round Out (Result Value × Store)
unlink_at hit o (cons c) =
    again (if hit o.store c then write_last o (o.store.cdr c) else move_to o c)
unlink_at hit o _ = leave (ok o.value, o.store)

pub unlink_step : (Store → Addr → Bool) → Out → Round Out (Result Value × Store)
unfolding unlink_at
unlink_step hit o = unlink_at hit o (read_last o)

pub unlink : ℕ → (Store → Addr → Bool) → Store → Value → Result Value × Store
unfolding unlink_step poll_loop
unlink n hit s l =
    if is_list l
    then (poll_loop (unlink_step hit) no_rest (λ o. (err interrupt, o.store)) n (start l s)).0
    else (err (bad_arg l 2), s)

-- `Fdelete`; `equal` stands for `!rep_value_cmp(...)` in the store at hand
pub delete : (Store → Value → Value → Bool) → ℕ → Store → Value → Value → Result Value × Store
unfolding unlink
delete equal n s elt l = unlink n (λ t c. equal t elt (t.car c)) s l

-- `Fdelq`
pub delq : ℕ → Store → Value → Value → Result Value × Store
unfolding unlink eq
delq n s elt l = unlink n (λ t c. eq elt (t.car c)) s l

-- `Fdelete_if` and `Fdelete_if_not`: the predicate is called, then comes the poll, then the cell is
-- unlinked or passed. `drop` says whether nil or non-nil drops the cell.
module _ (call : Store → Value → List Value → Result Value × Store) (drop : Value → Bool)
    (pred : Value) where
  pub delete_call : Out → Result Value × Store → Round (Out × Bool) (Result Value × Store)
  delete_call o (err e, s) = leave (err e, s)
  delete_call o (ok x, s) = again (record o { store = s }, drop x)

  pub delete_at : Out → Value → Round (Out × Bool) (Result Value × Store)
  unfolding delete_call
  delete_at o (cons c) = delete_call o (call o.store pred (o.store.car c ∷ []))
  delete_at o _ = leave (ok o.value, o.store)

  pub delete_step : Out × Bool → Round (Out × Bool) (Result Value × Store)
  unfolding delete_at
  delete_step (o, hit) = delete_at o (read_last o)

  -- `*ptr = rep_CDR(*ptr)` or `ptr = &rep_CDR(*ptr)`
  pub delete_rest_at : Out → Bool → Value → Out × Bool
  delete_rest_at o hit (cons c) = (if hit then write_last o (o.store.cdr c) else move_to o c, hit)
  delete_rest_at o hit _ = (o, hit)

  pub delete_rest : Out × Bool → Out × Bool
  unfolding delete_rest_at
  delete_rest (o, hit) = delete_rest_at o hit (read_last o)

  pub delete_by : ℕ → Store → Value → Result Value × Store
  unfolding delete_step delete_rest poll_loop
  delete_by n s l =
      if is_list l
      then (poll_loop delete_step delete_rest (λ (o, hit). (err interrupt, o.store)) n
          (start l s, false)).0
      else (err (bad_arg l 2), s)

module _ (call : Store → Value → List Value → Result Value × Store) (n : ℕ) (s : Store)
    (pred l : Value) where
  pub delete_if : Result Value × Store
  unfolding delete_by
  delete_if = delete_by call (λ x. not (is_nil x)) pred n s l

  pub delete_if_not : Result Value × Store
  unfolding delete_by
  delete_if_not = delete_by call is_nil pred n s l
