-- ===== src/Tests/Timers.antt =====
-- A chain of two timers, due after 1000 and 1500 milliseconds, and one of 1200.
use librep.Prelude.{
  ◌≡◌, refl, false, [], ◌∷◌, some, arith, ◌==◌, if◌then◌else◌, Bool-cases, inl, inr, has,
}
use librep.Value.{nil}
use librep.Timers.{
  Time, Timer, Timers, insert_timer, delete_timer, timer_signal_handler, take_fired,
}
use librep.Timers.Times.{time}
use librep.Timers.Schedules.{due, deadlines, schedule}
use librep.Timers.Deadlines.{IsChain, insert_timer-schedule}
use librep.Timers.Firing.{expired, pending, timer_signal_handler-expired}
use librep.Timers.Deleting.{unschedule, delete_timer-unschedule}

abbrev timer : Time → Time → Timer
timer t r = record { function = nil; time = t; rel = r; fired = false; deleted = false }

abbrev timers : Timers
timers = record {
  timer_at = λ a.
      if a == 0
      then timer (time 1 0) (time 1 0)
      else if a == 1
      then timer (time 1 500) (time 0 500)
      else timer (time 1 200) (time 0 0);
  chain = 0 ∷ 1 ∷ [];
  allocated = 2 ∷ 1 ∷ 0 ∷ [];
  alarm = some (time 1 0);
  data_after_gc = 0;
}

timers-IsChain : IsChain timers
timers-IsChain = record {
  distinct = (refl, (refl, tt));
  normal = λ p i. elim (Bool-cases (p == 0)) [
    | inl e ↦ let first : p ≡ 0 = ground arith in rw first (1, 0, refl, omega arith)
    | inr e ↦ let second : p ≡ 1 = ground arith in rw second (0, 500, refl, omega arith)
  ];
  alarm = refl;
}

insert_timer-schedule_example :
    let s = insert_timer timers 2 in
    IsChain s × (deadlines s.timer_at 0 s.chain ≡ schedule 1200 2 (due 1000 0 ∷ due 1500 1 ∷ []))
insert_timer-schedule_example =
    insert_timer-schedule timers 2 timers-IsChain refl (1, 200, refl, omega arith) refl

delete_timer-unschedule_example :
    let s = delete_timer timers 0 in
    IsChain s
    × (deadlines s.timer_at 0 s.chain ≡ unschedule 0 (due 1000 0 ∷ due 1500 1 ∷ []))
    × (has 0 s.chain ≡ false)
delete_timer-unschedule_example = delete_timer-unschedule timers 0 timers-IsChain

timer_signal_handler-expired_example :
    let m = (timer_signal_handler timers).timer_at in
    ((take_fired m timers.chain).0 ≡ expired 1000 (deadlines timers.timer_at 0 timers.chain))
    × (deadlines m 1000 (take_fired m timers.chain).1
        ≡ pending 1000 (deadlines timers.timer_at 0 timers.chain))
timer_signal_handler-expired_example =
    timer_signal_handler-expired timers 0 (1 ∷ []) refl (refl, (refl, tt)) timers-IsChain.normal
      (λ p i. ground arith)
