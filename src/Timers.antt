-- ===== src/Timers.antt =====
-- src/timers.c: one-shot timers, in a chain in which each holds the time that it fires after the one
-- before it. A time is a pair of ints; the ints do not overflow. Signals are blocked where the code
-- blocks them, so each operation here is one step.
pub mod Times
pub mod Schedules
pub mod Inserting
pub mod Deadlines
pub mod Deleting
pub mod Firing
use librep.Prelude.{
  ℕ, zero, suc, ◌+◌, ◌-◌, ◌%◌, ◌^◌, Bool, true, false, ◌&&◌, ◌||◌, not, List, [], ◌∷◌, Option, none,
  some, if◌then◌else◌, ◌==◌, ltb,
}
use librep.Prelude.Int.{ℤ, pos, negsuc, pos_part, neg_part, sub_ℕ, ◌-ℤ◌, ltb_ℤ}
use librep.Compare.{to_int}
use librep.Value.{Addr, Value, Result, ok, err, bad_arg}

-- `secs` and `msecs`
pub record Time : Type 0 where
  pub secs : ℤ
  pub msecs : ℤ

pub record Timer : Type 0 where
  pub function : Value
  pub time : Time
  pub rel : Time
  pub fired : Bool
  pub deleted : Bool

-- `chain` is `timer_chain`, through the `next` fields; `allocated` is `allocated_timers`. `alarm` is
-- what setitimer was last told, or none where the signal is ignored.
pub record Timers : Type 0 where
  pub timer_at : Addr → Timer
  pub chain : List Addr
  pub allocated : List Addr
  pub alarm : Option Time
  pub data_after_gc : ℕ

abbrev pub zero_time : Time
zero_time = record { secs = pos 0; msecs = pos 0 }

-- `secs > 0 || msecs > 0`
abbrev pub is_ahead : Time → Bool
is_ahead t = ltb_ℤ (pos 0) t.secs || ltb_ℤ (pos 0) t.msecs

-- The two loops of `fix_time`, on fuel
pub borrow_loop : ℕ → Time → Time
borrow_loop zero t = t
borrow_loop (suc n) t =
    let rest = borrow_loop n (record { secs = t.secs -ℤ pos 1; msecs = t.msecs -ℤ negsuc 999 }) in
    if ltb_ℤ t.msecs (pos 0) then rest else t

pub carry_loop : ℕ → Time → Time
carry_loop zero t = t
carry_loop (suc n) t =
    let rest = carry_loop n (record { secs = t.secs -ℤ negsuc 0; msecs = t.msecs -ℤ pos 1000 }) in
    if ltb_ℤ t.msecs (pos 1000) then t else rest

-- `fix_time`; no more rounds than milliseconds
pub fix_time : Time → Time
unfolding borrow_loop carry_loop
fix_time t = let n = pos_part t.msecs + neg_part t.msecs in carry_loop n (borrow_loop n t)

-- `a - b`, set right
pub minus : Time → Time → Time
unfolding fix_time
minus a b = fix_time (record { secs = a.secs -ℤ b.secs; msecs = a.msecs -ℤ b.msecs })

-- `a + b`, set right
pub plus : Time → Time → Time
unfolding fix_time
plus a b = fix_time (record {
  secs = sub_ℕ (pos_part a.secs + pos_part b.secs) (neg_part a.secs + neg_part b.secs);
  msecs = sub_ℕ (pos_part a.msecs + pos_part b.msecs) (neg_part a.msecs + neg_part b.msecs);
})

abbrev pub eq_int : ℤ → ℤ → Bool
eq_int a b = not (ltb_ℤ a b) && not (ltb_ℤ b a)

-- `rel_secs == 0 && rel_msecs == 0`
abbrev pub is_zero_time : Time → Bool
is_zero_time t = eq_int t.secs (pos 0) && eq_int t.msecs (pos 0)

-- `p->rel_secs < t->rel_secs || (p->rel_secs == t->rel_secs && p->rel_msecs <= t->rel_msecs)`
abbrev pub not_later : Time → Time → Bool
not_later p t = ltb_ℤ p.secs t.secs || (eq_int p.secs t.secs && not (ltb_ℤ t.msecs p.msecs))

abbrev pub Table : Type 0
Table = Addr → Timer

abbrev pub set_rel : Table → Addr → Time → Table
set_rel m a r b = if b == a then record (m a) { rel = r } else m b

abbrev pub is_first : Addr → List Addr → Bool
is_first a [] = false
is_first a (b ∷ cs) = b == a

-- What the alarm is set to: the time of the first timer, where that is ahead.
abbrev pub alarm_for : Table → List Addr → Option Time
alarm_for m [] = none
alarm_for m (a ∷ cs) = if is_ahead (m a).rel then some (m a).rel else none

-- `setup_next_timer`
abbrev pub setup_next_timer : Timers → Timers
setup_next_timer s = record s { alarm = alarm_for s.timer_at s.chain }

-- The loop of `insert_timer`, from `*ptr` on
pub insert_loop : Addr → Table → List Addr → List Addr × Table
unfolding minus
insert_loop t m [] = (t ∷ [], m)
insert_loop t m (p ∷ cs) =
    let more = insert_loop t (set_rel m t (minus (m t).rel (m p).rel)) cs in
    if not_later (m p).rel (m t).rel
    then (p ∷ more.0, more.1)
    else (t ∷ p ∷ cs, set_rel m p (minus (m p).rel (m t).rel))

-- `t->rel_secs = t->secs`, and what else starts the timer
abbrev pub start_timer : Table → Addr → Table
start_timer m t b =
    if b == t then record (m t) { rel = (m t).time; fired = false; deleted = false } else m b

-- `insert_timer`
pub insert_timer : Timers → Addr → Timers
unfolding insert_loop
insert_timer s t =
    let old = s.timer_at t in
    let (chain, m) = insert_loop t (start_timer s.timer_at t) s.chain in
    let s' = record s { chain = chain; timer_at = m } in
    if is_ahead old.time then (if is_first t chain then setup_next_timer s' else s') else s

-- The rest of the chain takes over the time of the timer that leaves.
pub give_time : Table → Addr → List Addr → Table
unfolding plus
give_time m t [] = set_rel m t zero_time
give_time m t (q ∷ cs) = let m' = set_rel m q (plus (m q).rel (m t).rel) in set_rel m' t zero_time

-- The loop of `delete_timer`, from `*ptr` on
pub delete_loop : Addr → Table → List Addr → List Addr × Table
unfolding give_time
delete_loop t m [] = ([], m)
delete_loop t m (p ∷ cs) =
    let more = delete_loop t m cs in if p == t then (cs, give_time m t cs) else (p ∷ more.0, more.1)

-- `t->deleted = true`
abbrev pub mark_deleted : Table → Addr → Table
mark_deleted m t b = if b == t then record (m t) { deleted = true } else m b

-- `delete_timer`
pub delete_timer : Timers → Addr → Timers
unfolding delete_loop
delete_timer s t =
    let (chain, m) = delete_loop t (mark_deleted s.timer_at t) s.chain in
    let s' = record s { chain = chain; timer_at = m } in
    if is_first t s.chain then setup_next_timer s' else s'

-- The loop of `timer_signal_handler`
pub fire_loop : Table → List Addr → Table
fire_loop m [] = m
fire_loop m (p ∷ cs) =
    let rest = fire_loop (λ b. if b == p then record (m p) { fired = true } else m b) cs in
    if is_zero_time (m p).rel then rest else m

-- The handler's work on the chain, which is not empty, since the alarm was set for its first timer
pub fire_first : Table → List Addr → Table
unfolding fire_loop
fire_first m [] = m
fire_first m (t ∷ cs) = fire_loop (set_rel m t zero_time) (t ∷ cs)

-- `timer_signal_handler`
pub timer_signal_handler : Timers → Timers
unfolding fire_first
timer_signal_handler s = record s { timer_at = fire_first s.timer_at s.chain }

-- The fired timers at the front of the chain, and the others.
pub take_fired : Table → List Addr → List Addr × List Addr
take_fired m [] = ([], [])
take_fired m (p ∷ cs) =
    let more = take_fired m cs in if (m p).fired then (p ∷ more.0, more.1) else ([], p ∷ cs)

-- The calls of `timer_fd_handler`; `call` is `rep_call_lisp1`, which may change the timers
pub call_all : (Value → Addr → Timers → Timers) → List Addr → Timers → Timers
call_all call [] s = s
call_all call (t ∷ cs) s =
    call_all call cs (if (s.timer_at t).deleted then s else call (s.timer_at t).function t s)

-- `timer_fd_handler`
pub timer_fd_handler : (Value → Addr → Timers → Timers) → Timers → Timers
unfolding take_fired call_all
timer_fd_handler call s =
    let (ready, chain) = take_fired s.timer_at s.chain in
    call_all call ready (setup_next_timer (record s { chain = chain }))

-- `sizeof(Lisp_Timer)` on a 64-bit machine
abbrev pub sizeof_timer : ℕ
sizeof_timer = 56

-- `Fmake_timer`; `a` is what `rep_alloc` returns, and the numbers are converted by rep_get_long_int
pub make_timer : Timers → Addr → Value → (secs msecs : ℤ) → Timers
unfolding insert_timer
make_timer s a fun secs msecs =
    let new : Timer = record {
      function = fun;
      time = fix_time (record { secs = to_int secs; msecs = to_int msecs });
      rel = zero_time;
      fired = false;
      deleted = false;
    } in
    insert_timer
      (record s {
        timer_at = λ b. if b == a then new else s.timer_at b;
        allocated = a ∷ s.allocated;
        data_after_gc = s.data_after_gc + sizeof_timer;
      })
      a

-- `secs != rep_nil || msecs != rep_nil`, and the new time; an argument `()` counts as 0
pub new_time : Time → (secs msecs : Option ℤ) → Time
new_time t none none = t
new_time t (some a) none = fix_time (record { secs = to_int a; msecs = pos 0 })
new_time t none (some b) = fix_time (record { secs = pos 0; msecs = to_int b })
new_time t (some a) (some b) = fix_time (record { secs = to_int a; msecs = to_int b })

-- `Fset_timer`; `none` is the argument `()`
pub set_timer : Timers → Addr → (secs msecs : Option ℤ) → Timers
unfolding delete_timer new_time insert_timer
set_timer s t secs msecs =
    let s' = delete_timer s t in
    let set : Table = λ b.
      if b == t
      then record (s'.timer_at t) { time = new_time (s'.timer_at t).time secs msecs }
      else s'.timer_at b in
    insert_timer (record s' { timer_at = set }) t

-- `timer_sweep`; `kept` are the timers that are linked again
pub timer_sweep : (Addr → Bool) → List Addr → List Addr → List Addr
timer_sweep marked [] kept = kept
timer_sweep marked (t ∷ ts) kept = timer_sweep marked ts (if marked t then t ∷ kept else kept)
