-- ===== src/Timers/Deadlines.antt =====
-- What insert_timer does to the deadlines of the chain.
use librep.Prelude.{
  ◌≡◌, refl, sym, ap, ◌∙◌, true, false, List, [], ◌∷◌, arith, ◌==◌, Bool-cases, inl, inr, has,
  Distinct,
}
use librep.Value.{Addr}
use librep.Timers.{
  Timers, Table, is_ahead, is_first, insert_loop, insert_timer, alarm_for, start_timer,
}
use librep.Timers.Times.{IsNormal, total}
use librep.Timers.Schedules.{deadlines, schedule, AllNormal, deadlines-agree}
use librep.Timers.Inserting.{Placed, insert_loop-Placed}

-- The chain's invariant: distinct timers, times that are set right, and the alarm of the first.
pub record IsChain (s : Timers) : Type 0 where
  pub distinct : Distinct s.chain
  pub normal : AllNormal s.timer_at s.chain
  pub alarm : s.alarm ≡ alarm_for s.timer_at s.chain

module _ (s : Timers) (t : Addr) (v : IsChain s) (out : has t s.chain ≡ false)
    (right : IsNormal (s.timer_at t).time) where
  abbrev started : Table
  started = start_timer s.timer_at t

  started-same : (p : Addr) → has p s.chain ≡ true → started p ≡ s.timer_at p
  started-same p i = let other : (p == t) ≡ false = ground arith in rw other refl

  started-rel : (started t).rel ≡ (s.timer_at t).time
  started-rel = ground arith

  inserted-Placed : Placed t started s.chain (insert_loop t started s.chain)
  inserted-Placed =
      insert_loop-Placed t started s.chain out v.distinct
        (λ p i. rw (started-same p i) (v.normal p i)) (rw started-rel right)

  inserted-alarm :
      is_first t (insert_loop t started s.chain).0 ≡ false
      → s.alarm ≡ alarm_for (insert_loop t started s.chain).1 (insert_loop t started s.chain).0
  inserted-alarm i = v.alarm ∙ sym (inserted-Placed.head i ∙ same s.chain (λ p j. started-same p j))
    where
      same :
          (cs : List Addr)
          → ((p : Addr) → has p cs ≡ true → started p ≡ s.timer_at p)
          → alarm_for started cs ≡ alarm_for s.timer_at cs
      same [] h = refl
      same (p ∷ cs) h = rw (h p (ground arith)) refl

  -- `insert_timer` puts the timer behind those that are due no later, where all times count from one
  -- moment; the deadlines of the others stay, the chain keeps its invariant, and the alarm is that of
  -- its first timer. The timer is not in the chain, and its time is set right and not 0.
  pub insert_timer-schedule :
      is_ahead (s.timer_at t).time ≡ true
      → let s' = insert_timer s t in
        IsChain s'
        × (deadlines s'.timer_at 0 s'.chain
            ≡ schedule (total (s.timer_at t).time) t (deadlines s.timer_at 0 s.chain))
  unfolding insert_timer
  insert_timer-schedule ahead =
      let k = inserted-Placed in
      let times : deadlines (insert_loop t started s.chain).1 0 (insert_loop t started s.chain).0
          ≡ schedule (total (s.timer_at t).time) t (deadlines s.timer_at 0 s.chain) =
        (rw (started-rel, deadlines-agree s.timer_at started 0 s.chain started-same) at (k.times 0))
        ∙ ap (λ n. schedule n t (deadlines s.timer_at 0 s.chain)) (omega arith) in
      rw ahead (elim (Bool-cases (is_first t (insert_loop t started s.chain).0)) [
        | inl e ↦ rw e (record { distinct = k.distinct; normal = k.normal; alarm = refl }, times)
        | inr e ↦
            rw e
              (record { distinct = k.distinct; normal = k.normal; alarm = inserted-alarm e }, times)
      ])
