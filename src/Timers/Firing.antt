-- ===== src/Timers/Firing.antt =====
-- The signal of the alarm, and the timers that the input handler then takes.
use librep.Prelude.{
  ℕ, ◌+◌, ◌≡◌, refl, ap, ◌∙◌, true, false, List, [], ◌∷◌, arith, if◌then◌else◌, ◌==◌, leb,
  Bool-cases, inl, inr, has, Distinct,
}
use librep.Value.{Addr}
use librep.Timers.{
  Time, Timers, Table, set_rel, zero_time, is_zero_time, fire_loop, fire_first,
  timer_signal_handler, take_fired,
}
use librep.Timers.Times.{IsNormal, total}
use librep.Timers.Schedules.{Deadline, due, deadlines, deadlines-agree, AllNormal}

-- The timers at the front that are due by `n`, and the deadlines behind them.
abbrev pub expired : ℕ → List Deadline → List Addr
expired n [] = []
expired n (d ∷ ds) = if leb d.at n then d.timer ∷ expired n ds else []

abbrev pub pending : ℕ → List Deadline → List Deadline
pending n [] = []
pending n (d ∷ ds) = if leb d.at n then pending n ds else d ∷ ds

abbrev pub Unfired : Table → List Addr → Type 0
Unfired m cs = (p : Addr) → has p cs ≡ true → (m p).fired ≡ false

is_zero-total : (r : Time) → IsNormal r → is_zero_time r ≡ (total r == 0)
is_zero-total r (s, u, e, h) = rw e (ground arith)

abbrev fire : Table → Addr → Table
fire m p b = if b == p then record (m p) { fired = true } else m b

record Fired (b : ℕ) (m : Table) (cs : List Addr) (m' : Table) : Type 0 where
  ready : (take_fired m' cs).0 ≡ expired b (deadlines m b cs)
  rest : deadlines m' b (take_fired m' cs).1 ≡ pending b (deadlines m b cs)
  others : (p : Addr) → has p cs ≡ false → m' p ≡ m p

module _ (b : ℕ) (m : Table) (p : Addr) (cs : List Addr) where
  fire_loop-zero : is_zero_time (m p).rel ≡ true → fire_loop m (p ∷ cs) ≡ fire_loop (fire m p) cs
  unfolding fire_loop
  fire_loop-zero e = rw e refl

  fire_loop-stop : is_zero_time (m p).rel ≡ false → fire_loop m (p ∷ cs) ≡ m
  unfolding fire_loop
  fire_loop-stop e = rw e refl

  take_fired-more :
      (m p).fired ≡ true → take_fired m (p ∷ cs) ≡ (p ∷ (take_fired m cs).0, (take_fired m cs).1)
  unfolding take_fired
  take_fired-more e = rw e refl

  take_fired-stop : (m p).fired ≡ false → take_fired m (p ∷ cs) ≡ ([], p ∷ cs)
  unfolding take_fired
  take_fired-stop e = rw e refl

take_fired-empty : (m : Table) → take_fired m [] ≡ ([], [])
unfolding take_fired
take_fired-empty m = refl

fire_loop-empty : (m : Table) → fire_loop m [] ≡ m
unfolding fire_loop
fire_loop-empty m = refl

fire_loop-Fired :
    (b : ℕ) (m : Table) (cs : List Addr)
    → Distinct cs
    → AllNormal m cs
    → Unfired m cs
    → Fired b m cs (fire_loop m cs)
fire_loop-Fired b m [] d normal off = rw (fire_loop-empty m) (record {
  ready = rw (take_fired-empty m) refl;
  rest = rw (take_fired-empty m) refl;
  others = λ p i. refl;
})
fire_loop-Fired b m (p ∷ cs) (first, d) normal off =
    let zero_test = is_zero-total (m p).rel (normal p (ground arith)) in
    elim (Bool-cases (is_zero_time (m p).rel)) [
      | inl e ↦
          let none_left : total (m p).rel ≡ 0 = ground arith in
          let same : (q : Addr) → has q cs ≡ true → fire m p q ≡ m q =
            λ q i. let other : (q == p) ≡ false = ground arith in rw other refl in
          let k =
            fire_loop-Fired b (fire m p) cs d (λ q i. rw (same q i) (normal q (ground arith)))
              (λ q i. rw (same q i) (off q (ground arith))) in
          let on : (fire_loop (fire m p) cs p).fired ≡ true =
            rw (k.others p first) (ground arith) in
          let agree = deadlines-agree m (fire m p) b cs same in
          let now : b + total (m p).rel ≡ b = omega (arith, none_left) in
          let test : leb b b ≡ true = ground arith in
          rw (fire_loop-zero b m p cs e) (record {
            ready =
                rw (take_fired-more b (fire_loop (fire m p) cs) p cs on, now, test)
                  (ap (λ ts. p ∷ ts) (rw agree at k.ready));
            rest =
                rw (take_fired-more b (fire_loop (fire m p) cs) p cs on, now, test)
                  (rw agree at k.rest);
            others = λ q i. k.others q (ground arith) ∙ ground arith;
          })
      | inr e ↦
          let test : leb (b + total (m p).rel) b ≡ false = ground arith in
          let stop = take_fired-stop b m p cs (off p (ground arith)) in
          rw (fire_loop-stop b m p cs e) (record {
            ready = rw (stop, test) refl;
            rest = rw (stop, test) refl;
            others = λ q i. refl;
          })
    ]

module _ (m : Table) (t : Addr) (cs : List Addr) (first : has t cs ≡ false) (d : Distinct cs)
    (normal : AllNormal m (t ∷ cs)) (off : Unfired m (t ∷ cs)) where
  -- The first timer's time has passed.
  abbrev passed : Table
  passed = set_rel m t zero_time

  passed-same : (q : Addr) → has q cs ≡ true → passed q ≡ m q
  passed-same q i = let other : (q == t) ≡ false = ground arith in rw other refl

  passed_self : passed t ≡ record (m t) { rel = zero_time }
  passed_self = ground arith

  passed-Fired : Fired (total (m t).rel) passed (t ∷ cs) (fire_loop passed (t ∷ cs))
  passed-Fired =
      fire_loop-Fired (total (m t).rel) passed (t ∷ cs) (first, d)
        (λ q i. elim (Bool-cases (q == t)) [
          | inl e ↦
              let at_t : q ≡ t = ground arith in rw (at_t, passed_self) (0, 0, refl, omega arith)
          | inr e ↦ rw (passed-same q (ground arith)) (normal q (ground arith))
        ])
        (λ q i. elim (Bool-cases (q == t)) [
          | inl e ↦ let at_t : q ≡ t = ground arith in rw (at_t, passed_self) (off t (ground arith))
          | inr e ↦ rw (passed-same q (ground arith)) (off q (ground arith))
        ])

  passed-deadlines : deadlines passed (total (m t).rel) (t ∷ cs) ≡ deadlines m 0 (t ∷ cs)
  passed-deadlines =
      let now : total (m t).rel + 0 ≡ 0 + total (m t).rel = omega arith in
      rw (passed_self, now)
        (ap (λ ds. due (0 + total (m t).rel) t ∷ ds)
          (deadlines-agree m passed (0 + total (m t).rel) cs passed-same))

fire_first-more :
    (m : Table) (t : Addr) (cs : List Addr)
    → fire_first m (t ∷ cs) ≡ fire_loop (set_rel m t zero_time) (t ∷ cs)
unfolding fire_first
fire_first-more m t cs = refl

-- When the alarm goes off, the timers that the handler takes are those whose deadline is that of the
-- first timer, in the order of the chain, and the others keep their deadlines, which count from that
-- moment. The chain is not empty, its times are set right, and none of its timers has fired.
pub timer_signal_handler-expired :
    (s : Timers) (t : Addr) (cs : List Addr)
    → s.chain ≡ t ∷ cs
    → Distinct (t ∷ cs)
    → AllNormal s.timer_at (t ∷ cs)
    → Unfired s.timer_at (t ∷ cs)
    → let now = total (s.timer_at t).rel in
      let m = (timer_signal_handler s).timer_at in
      ((take_fired m s.chain).0 ≡ expired now (deadlines s.timer_at 0 s.chain))
      × (deadlines m now (take_fired m s.chain).1 ≡ pending now (deadlines s.timer_at 0 s.chain))
unfolding timer_signal_handler
timer_signal_handler-expired s t cs e (first, d) normal off =
    let k = passed-Fired s.timer_at t cs first d normal off in
    let same = passed-deadlines s.timer_at t cs first d normal off in
    let now = total (s.timer_at t).rel in
    rw (e, fire_first-more s.timer_at t cs)
      (k.ready ∙ ap (expired now) same, k.rest ∙ ap (pending now) same)
