-- ===== src/Lists/Copy.antt =====
-- src/lists.c: rep_copy_list, append, append! and rep_concat_lists.
pub mod Copying
pub mod Concatenation
pub mod Joining
use librep.Prelude.{
  ℕ, zero, suc, ◌+◌, Bool, true, false, Option, none, some, List, [], ◌∷◌, ◌++◌, if◌then◌else◌,
}
use librep.Value.{Value, nil, null, cons, is_list, Error, bad_arg, interrupt, Result, ok, err}
use librep.Loop.{Round, leave, again, poll_loop, no_rest}
use librep.Heap.{Store}
use librep.Heap.Tail.{Place, local, cdr_of, Out, read_last, write_last, move_to, emit}
use librep.Lists.Access.{car, cdr}
use librep.Lists.Index.{list_length}

abbrev pub start : Value → Store → Out
start v s = record { value = v; last = local; store = s }

pub copy_step : Value × Out → Round (Value × Out) (Value × Out × Bool)
copy_step (cons a, o) = let o' = emit o (o.store.car a) in again (o'.store.cdr a, o')
copy_step (v, o) = leave (v, o, false)

-- `rep_copy_list`: an interrupted copy ends in the rest of the list that it copies. The result, the
-- store, whether it was interrupted, and the polls that are left; `result` is not set before the end.
pub copy_list : ℕ → Store → Value → Value × Store × Bool × ℕ
unfolding copy_step poll_loop
copy_list n s l =
    let ((v, o, stopped), left) =
      poll_loop copy_step no_rest (λ (v, o). (v, o, true)) n (l, start null s) in
    let o' = write_last o v in (o'.value, o'.store, stopped, left)

-- `while (rep_CONSP(*res_end)) { poll; res_end = rep_CDRLOC(*res_end); }`
pub to_end_at : Out → Value → Round Out (Option Out)
to_end_at o (cons c) = again o
to_end_at o _ = leave (some o)

pub to_end_step : Out → Round Out (Option Out)
unfolding to_end_at
to_end_step o = to_end_at o (read_last o)

pub advance_at : Out → Value → Out
advance_at o (cons c) = move_to o c
advance_at o _ = o

pub advance : Out → Out
unfolding advance_at
advance o = advance_at o (read_last o)

pub to_end : ℕ → Out → Option Out × ℕ
unfolding to_end_step advance poll_loop
to_end n o = poll_loop to_end_step advance (λ _. none) n o

-- `*res_end = v`, and the walk to the end of it
pub attach : ℕ → Out → Value → Option Out × ℕ
unfolding to_end
attach n o v = to_end n (write_last o v)

abbrev pub interrupted : Out → Result Value × Store
interrupted o = (err interrupt, o.store)

-- `Fappend` from its `i`-th argument on. A copy that was interrupted has a cell, so that the walk
-- behind it is left with 0 at its first poll.
pub append_loop : ℕ → ℕ → Out → List Value → Result Value × Store
append_loop n i o [] = (ok o.value, o.store)
append_loop n i o (v ∷ []) = elim ((attach n o v).0) [
  | none ↦ interrupted (write_last o v)
  | some o' ↦ (ok o'.value, o'.store)
]
append_loop n i o (v ∷ w ∷ vs) =
    let (r, s, stopped, n') = copy_list n o.store v in
    let o' : Out = record o { store = s } in
    let (end, n'') = attach n' o' r in
    let rest : Result Value × Store = elim end [
      | none ↦ interrupted (write_last o' r)
      | some o'' ↦ append_loop n'' (i + 1) o'' (w ∷ vs)
    ] in
    if is_list v
    then (if stopped then interrupted (write_last o' r) else rest)
    else (err (bad_arg v (i + 1)), o.store)

pub append : ℕ → Store → List Value → Result Value × Store
unfolding append_loop
append n s argv = append_loop n 0 (start nil s) argv

-- `Fnconc`
pub nconc_loop : ℕ → ℕ → Out → List Value → Result Value × Store
nconc_loop n i o [] = (ok o.value, o.store)
nconc_loop n i o (v ∷ []) = elim ((attach n o v).0) [
  | none ↦ interrupted (write_last o v)
  | some o' ↦ (ok o'.value, o'.store)
]
nconc_loop n i o (v ∷ w ∷ vs) =
    let (end, n') = attach n o v in
    let rest : Result Value × Store = elim end [
      | none ↦ interrupted (write_last o v)
      | some o' ↦ nconc_loop n' (i + 1) o' (w ∷ vs)
    ] in
    if is_list v then rest else (err (bad_arg v (i + 1)), o.store)

pub nconc : ℕ → Store → List Value → Result Value × Store
unfolding nconc_loop
nconc n s argv = nconc_loop n 0 (start nil s) argv

-- `vec[i] = rep_CAR(args); args = rep_CDR(args);` for the cells that were counted
pub collect_step :
    Store → ℕ × Value × List Value → Round (ℕ × Value × List Value) (Option (List Value))
unfolding car cdr
collect_step s (zero, args, vec) = leave (some vec)
collect_step s (suc k, args, vec) = again (k, cdr s args, vec ++ car s args ∷ [])

-- `rep_concat_lists`
pub concat_lists : ℕ → Store → Value → Result Value × Store
unfolding collect_step nconc poll_loop
concat_lists n s args = elim (list_length n s args) [
  | none ↦ (err interrupt, s)
  | some len ↦ elim ((poll_loop (collect_step s) no_rest (λ _. none) n (len, args, [])).0) [
    | none ↦ (err interrupt, s)
    | some vec ↦ nconc n s vec
  ]
]
