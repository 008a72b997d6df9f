-- ===== src/Lists/Reverse.antt =====
-- src/lists.c: reverse and reverse!.
pub mod Elements
use librep.Prelude.{ℕ, if◌then◌else◌}
use librep.Value.{Value, nil, cons, is_list, Error, bad_arg, interrupt, Result, ok, err}
use librep.Loop.{Round, leave, again, poll_loop, no_rest}
use librep.Heap.{Store, set_cdr_of, make_cons}

-- The variables `head` and `ret`, and the store.
abbrev pub Turn : Type 0
Turn = Value × Value × Store

pub reverse_step : Turn → Round Turn (Result Value × Store)
reverse_step (cons a, ret, s) =
    let (c, s') = make_cons s (s.car a) ret in again (s'.cdr a, cons c, s')
reverse_step (_, ret, s) = leave (ok ret, s)

abbrev pub stop_turn : Turn → Result Value × Store
stop_turn (head, ret, s) = (err interrupt, s)

-- `Freverse`
pub reverse : ℕ → Store → Value → Result Value × Store
unfolding reverse_step poll_loop
reverse n s head =
    if is_list head
    then (poll_loop reverse_step no_rest stop_turn n (head, nil, s)).0
    else (err (bad_arg head 1), s)

pub nreverse_step : Turn → Round Turn (Result Value × Store)
nreverse_step (cons a, ret, s) = again (s.cdr a, cons a, set_cdr_of s a ret)
nreverse_step (_, ret, s) = leave (ok ret, s)

-- `Fnreverse`
pub nreverse : ℕ → Store → Value → Result Value × Store
unfolding nreverse_step poll_loop
nreverse n s nil = (ok nil, s)
nreverse n s (cons a) = (poll_loop nreverse_step no_rest stop_turn n (cons a, nil, s)).0
nreverse n s v = (err (bad_arg v 1), s)
