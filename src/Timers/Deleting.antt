-- ===== src/Timers/Deleting.antt =====
-- `delete_timer`: the deadlines of the other timers stay.
use librep.Prelude.{
  ℕ, ◌+◌, ◌≡◌, refl, sym, ap, ◌∙◌, true, false, ◌&&◌, not, List, [], ◌∷◌, arith, if◌then◌else◌,
  ◌==◌, Bool-cases, inl, inr, has, Distinct,
}
use librep.Value.{Addr}
use librep.Timers.{
  Timers, Table, plus, is_first, alarm_for, mark_deleted, give_time, delete_loop, delete_timer,
}
use librep.Timers.Times.{total, plus-IsNormal}
use librep.Timers.Schedules.{Deadline, due, deadlines, deadlines-agree, AllNormal}
use librep.Timers.Deadlines.{IsChain}

-- The deadlines without that of a timer.
abbrev pub unschedule : Addr → List Deadline → List Deadline
unschedule t [] = []
unschedule t (d ∷ ds) = if d.timer == t then ds else d ∷ unschedule t ds

record Removed (t : Addr) (m : Table) (cs : List Addr) (out : List Addr × Table) : Type 0 where
  times : (b : ℕ) → deadlines out.1 b out.0 ≡ unschedule t (deadlines m b cs)
  normal : AllNormal out.1 out.0
  others : (p : Addr) → has p cs ≡ false → (p == t) ≡ false → out.1 p ≡ m p
  members : (p : Addr) → has p out.0 ≡ (has p cs && not (p == t))
  distinct : Distinct out.0
  head : is_first t cs ≡ false → alarm_for out.1 out.0 ≡ alarm_for m cs

module _ (t : Addr) (m : Table) where
  give_time-other :
      (cs : List Addr) (p : Addr) → has p cs ≡ false → (p == t) ≡ false → give_time m t cs p ≡ m p
  unfolding give_time
  give_time-other [] p i e = rw e refl
  give_time-other (q ∷ cs) p i e = let other : (p == q) ≡ false = ground arith in rw (e, other) refl

  -- The timer stood in front of `cs`.
  Removed-first :
      (cs : List Addr)
      → has t cs ≡ false
      → Distinct cs
      → AllNormal m (t ∷ cs)
      → Removed t m (t ∷ cs) (cs, give_time m t cs)
  unfolding give_time
  Removed-first [] out d normal = record {
    times = λ b. ground arith;
    normal = λ p i. absurd (ground arith);
    others = λ p i e. give_time-other [] p refl e;
    members = λ p. ground arith;
    distinct = tt;
    head = λ i. absurd (ground arith);
  }
  Removed-first (q ∷ cs) out (first, d) normal =
      let apart : (q == t) ≡ false = ground arith in
      let (right, sum) =
        plus-IsNormal (m q).rel (m t).rel (normal q (ground arith)) (normal t (ground arith)) in
      let taken : (give_time m t (q ∷ cs) q).rel ≡ plus (m q).rel (m t).rel = ground arith in
      let same : (p : Addr) → has p cs ≡ true → give_time m t (q ∷ cs) p ≡ m p = λ p i.
        let other : (p == t) ≡ false = ground arith in
        let behind : (p == q) ≡ false = ground arith in rw (other, behind) refl in
      record {
        times = λ b.
            let self : (t == t) ≡ true = ground arith in
            let ends : b + total (plus (m q).rel (m t).rel)
                ≡ b + total (m t).rel + total (m q).rel =
              omega (arith, sum) in
            let rest =
              deadlines-agree m (give_time m t (q ∷ cs)) (b + total (m t).rel + total (m q).rel) cs
                same in
            rw (self, taken, ends, rest) refl;
        normal = λ p i. elim (Bool-cases (p == q)) [
          | inl e ↦ let at_q : p ≡ q = ground arith in rw (at_q, taken) right
          | inr e ↦ rw (same p (ground arith)) (normal p (ground arith))
        ];
        others = λ p i e. give_time-other (q ∷ cs) p (ground arith) e;
        members = λ p. ground arith;
        distinct = (first, d);
        head = λ i. absurd (ground arith);
      }

  -- The timer stands behind `p`.
  Removed-behind :
      (p : Addr) (cs : List Addr) (r : List Addr × Table)
      → (p == t) ≡ false
      → has p cs ≡ false
      → AllNormal m (p ∷ cs)
      → Removed t m cs r
      → Removed t m (p ∷ cs) (p ∷ r.0, r.1)
  Removed-behind p cs r apart first normal k =
      let same : r.1 p ≡ m p = k.others p first apart in
      record {
        times = λ b.
            rw (same, apart)
              (ap (λ ds. due (b + total (m p).rel) p ∷ ds) (k.times (b + total (m p).rel)));
        normal = λ q i. elim (Bool-cases (q == p)) [
          | inl e ↦ let at_p : q ≡ p = ground arith in rw (at_p, same) (normal p (ground arith))
          | inr e ↦ k.normal q (ground arith)
        ];
        others = λ q i e. k.others q (ground arith) e;
        members = λ q. ground (arith, k.members q);
        distinct = (ground (arith, k.members p), k.distinct);
        head = λ i. rw same refl;
      }

  delete_loop-at :
      (p : Addr) (cs : List Addr)
      → (p == t) ≡ true
      → delete_loop t m (p ∷ cs) ≡ (cs, give_time m t cs)
  unfolding delete_loop
  delete_loop-at p cs e = rw e refl

  delete_loop-behind :
      (p : Addr) (cs : List Addr)
      → (p == t) ≡ false
      → delete_loop t m (p ∷ cs) ≡ (p ∷ (delete_loop t m cs).0, (delete_loop t m cs).1)
  unfolding delete_loop
  delete_loop-behind p cs e = rw e refl

  delete_loop-empty : delete_loop t m [] ≡ ([], m)
  unfolding delete_loop
  delete_loop-empty = refl

  delete_loop-Removed :
      (cs : List Addr) → Distinct cs → AllNormal m cs → Removed t m cs (delete_loop t m cs)
  delete_loop-Removed [] d normal = rw delete_loop-empty (record {
    times = λ b. refl;
    normal = λ p i. absurd (ground arith);
    others = λ p i e. refl;
    members = λ p. refl;
    distinct = tt;
    head = λ i. refl;
  })
  delete_loop-Removed (p ∷ cs) (first, d) normal = elim (Bool-cases (p == t)) [
    | inl e ↦
        let at_t : p ≡ t = ground arith in
        rw (delete_loop-at p cs e, at_t) (Removed-first cs (rw at_t at first) d (rw at_t at normal))
    | inr e ↦ rw (delete_loop-behind p cs e) (
        Removed-behind p cs _ e first normal
          (delete_loop-Removed cs d (λ q i. normal q (ground arith))))
  ]

module _ (s : Timers) (t : Addr) (v : IsChain s) where
  abbrev marked : Table
  marked = mark_deleted s.timer_at t

  marked-rel : (p : Addr) → (marked p).rel ≡ (s.timer_at p).rel
  marked-rel p = elim (Bool-cases (p == t)) [
    | inl e ↦ let at_t : p ≡ t = ground arith in rw (e, at_t) refl
    | inr e ↦ rw e refl
  ]

  marked-deadlines : (b : ℕ) (cs : List Addr) → deadlines marked b cs ≡ deadlines s.timer_at b cs
  marked-deadlines b [] = refl
  marked-deadlines b (p ∷ cs) = rw (marked-rel p) (
      ap (λ ds. due (b + total (s.timer_at p).rel) p ∷ ds)
        (marked-deadlines (b + total (s.timer_at p).rel) cs))

  marked-alarm : (cs : List Addr) → alarm_for marked cs ≡ alarm_for s.timer_at cs
  marked-alarm [] = refl
  marked-alarm (p ∷ cs) = rw (marked-rel p) refl

  deleted-Removed : Removed t marked s.chain (delete_loop t marked s.chain)
  deleted-Removed =
      delete_loop-Removed t marked s.chain v.distinct (λ p i. rw (marked-rel p) (v.normal p i))

  -- `delete_timer` takes the timer out of the chain, where it is in it: the deadlines of all others stay
  -- as they were, the chain keeps its invariant, and the alarm is that of its first timer.
  pub delete_timer-unschedule :
      let s' = delete_timer s t in
      IsChain s'
      × (deadlines s'.timer_at 0 s'.chain ≡ unschedule t (deadlines s.timer_at 0 s.chain))
      × (has t s'.chain ≡ false)
  unfolding delete_timer
  delete_timer-unschedule =
      let k = deleted-Removed in
      let times = k.times 0 ∙ ap (unschedule t) (marked-deadlines 0 s.chain) in
      let gone : has t (delete_loop t marked s.chain).0 ≡ false = k.members t ∙ ground arith in
      elim (Bool-cases (is_first t s.chain)) [
        | inl e ↦
            rw e (record { distinct = k.distinct; normal = k.normal; alarm = refl }, times, gone)
        | inr e ↦ rw e (
          record {
            distinct = k.distinct;
            normal = k.normal;
            alarm = v.alarm ∙ sym (k.head e ∙ marked-alarm s.chain);
          },
          times,
          gone,
        )
      ]
