-- ===== src/Timers/Inserting.antt =====
-- The loop of insert_timer: where the new timer comes to stand.
use librep.Prelude.{
  ℕ, ◌+◌, ◌≤◌, ◌≡◌, refl, sym, ap, ◌∙◌, true, false, ◌||◌, List, [], ◌∷◌, arith, ◌==◌, leb,
  Bool-cases, inl, inr, has, Distinct,
}
use librep.Value.{Addr}
use librep.Timers.{Table, set_rel, not_later, minus, is_first, insert_loop, alarm_for}
use librep.Timers.Times.{IsNormal, total, minus-IsNormal, not_later-total}
use librep.Timers.Schedules.{due, deadlines, schedule, AllNormal, deadlines-agree}

-- The chain and the table behind the loop.
pub record Placed (t : Addr) (m : Table) (cs : List Addr) (out : List Addr × Table) : Type 0 where
  pub times :
      (b : ℕ) → deadlines out.1 b out.0 ≡ schedule (b + total (m t).rel) t (deadlines m b cs)
  pub normal : AllNormal out.1 out.0
  pub others : (p : Addr) → has p cs ≡ false → (p == t) ≡ false → out.1 p ≡ m p
  pub members : (p : Addr) → has p out.0 ≡ (p == t || has p cs)
  pub distinct : Distinct out.0
  pub head : is_first t out.0 ≡ false → alarm_for out.1 out.0 ≡ alarm_for m cs

module _ (t p : Addr) (m : Table) (cs : List Addr) (apart : (p == t) ≡ false)
    (out : has t cs ≡ false) (first : has p cs ≡ false) (distinct : Distinct cs)
    (normal : AllNormal m (p ∷ cs)) (own : IsNormal (m t).rel) where
  -- The timer goes on behind `p`.
  passing : Table
  passing = set_rel m t (minus (m t).rel (m p).rel)

  passing-same : (q : Addr) → (q == t) ≡ false → passing q ≡ m q
  unfolding passing
  passing-same q e = rw e refl

  passing-rel : (passing t).rel ≡ minus (m t).rel (m p).rel
  unfolding passing
  passing-rel = ground arith

  passing-AllNormal : AllNormal passing cs
  passing-AllNormal q i = rw (passing-same q (ground arith)) (normal q (ground arith))

  earlier : not_later (m p).rel (m t).rel ≡ true → total (m p).rel ≤ total (m t).rel
  earlier e =
      let test : leb (total (m p).rel) (total (m t).rel) ≡ true =
        sym (not_later-total (m p).rel (m t).rel (normal p (ground arith)) own) ∙ e in
      ground arith

  passing-IsNormal : not_later (m p).rel (m t).rel ≡ true → IsNormal (passing t).rel
  passing-IsNormal e =
      rw passing-rel
        (minus-IsNormal (m t).rel (m p).rel own (normal p (ground arith)) (earlier e)).0

  Placed-behind :
      (r : List Addr × Table)
      → not_later (m p).rel (m t).rel ≡ true
      → Placed t passing cs r
      → Placed t m (p ∷ cs) (p ∷ r.0, r.1)
  Placed-behind r early k =
      let early' = earlier early in
      let (_, less) = minus-IsNormal (m t).rel (m p).rel own (normal p (ground arith)) early' in
      let same : r.1 p ≡ m p = k.others p first apart ∙ passing-same p apart in
      record {
        times = λ b.
            let b' = b + total (m p).rel in
            let rest = deadlines-agree m passing b' cs (λ q i. passing-same q (ground arith)) in
            let ends : b' + total (passing t).rel ≡ b + total (m t).rel =
              rw passing-rel (omega arith) in
            let test : leb b' (b + total (m t).rel) ≡ true = ground arith in
            let times = k.times b' in
            rw (same, test) (ap (λ ds. due b' p ∷ ds) (rw (ends, rest) at times));
        normal = λ q i. elim (Bool-cases (q == p)) [
          | inl e ↦ let at_p : q ≡ p = ground arith in rw (at_p, same) (normal p (ground arith))
          | inr e ↦ k.normal q (ground arith)
        ];
        others = λ q i e. k.others q (ground arith) e ∙ passing-same q e;
        members = λ q. ground (arith, k.members q);
        distinct = (ground (arith, k.members p), k.distinct);
        head = λ i. rw same refl;
      }

  -- The timer goes in front of `p`, whose time counts from it.
  stopping : Table
  stopping = set_rel m p (minus (m p).rel (m t).rel)

  stopping-same : (q : Addr) → (q == p) ≡ false → stopping q ≡ m q
  unfolding stopping
  stopping-same q e = rw e refl

  stopping-rel : (stopping p).rel ≡ minus (m p).rel (m t).rel
  unfolding stopping
  stopping-rel = ground arith

  Placed-before : not_later (m p).rel (m t).rel ≡ false → Placed t m (p ∷ cs) (t ∷ p ∷ cs, stopping)
  Placed-before late =
      let after : leb (total (m p).rel) (total (m t).rel) ≡ false =
        sym (not_later-total (m p).rel (m t).rel (normal p (ground arith)) own) ∙ late in
      let (set_right, less) =
        minus-IsNormal (m p).rel (m t).rel (normal p (ground arith)) own (ground arith) in
      let same : stopping t ≡ m t = stopping-same t (ground arith) in
      record {
        times = λ b.
            let rest =
              deadlines-agree m stopping (b + total (m p).rel) cs
                (λ q i. stopping-same q (ground arith)) in
            let ends : b + total (m t).rel + total (stopping p).rel ≡ b + total (m p).rel =
              rw stopping-rel (omega arith) in
            let test : leb (b + total (m p).rel) (b + total (m t).rel) ≡ false = ground arith in
            rw (same, ends, test, rest) refl;
        normal = λ q i. elim (Bool-cases (q == p)) [
          | inl e ↦ let at_p : q ≡ p = ground arith in rw (at_p, stopping-rel) set_right
          | inr e ↦ elim (Bool-cases (q == t)) [
            | inl f ↦ let at_t : q ≡ t = ground arith in rw (at_t, same) own
            | inr f ↦ rw (stopping-same q e) (normal q (ground arith))
          ]
        ];
        others = λ q i e. stopping-same q (ground arith);
        members = λ q. refl;
        distinct = (ground arith, (first, distinct));
        head = λ i. absurd (ground arith);
      }

insert_loop-behind :
    (t p : Addr) (m : Table) (cs : List Addr)
    → not_later (m p).rel (m t).rel ≡ true
    → insert_loop t m (p ∷ cs) ≡ (
      p ∷ (insert_loop t (set_rel m t (minus (m t).rel (m p).rel)) cs).0,
      (insert_loop t (set_rel m t (minus (m t).rel (m p).rel)) cs).1,
    )
unfolding insert_loop
insert_loop-behind t p m cs e = rw e refl

insert_loop-before :
    (t p : Addr) (m : Table) (cs : List Addr)
    → not_later (m p).rel (m t).rel ≡ false
    → insert_loop t m (p ∷ cs) ≡ (t ∷ p ∷ cs, set_rel m p (minus (m p).rel (m t).rel))
unfolding insert_loop
insert_loop-before t p m cs e = rw e refl

insert_loop-empty : (t : Addr) (m : Table) → insert_loop t m [] ≡ (t ∷ [], m)
unfolding insert_loop
insert_loop-empty t m = refl

pub insert_loop-Placed :
    (t : Addr) (m : Table) (cs : List Addr)
    → has t cs ≡ false
    → Distinct cs
    → AllNormal m cs
    → IsNormal (m t).rel
    → Placed t m cs (insert_loop t m cs)
unfolding passing stopping
insert_loop-Placed t m [] out d normal own = rw (insert_loop-empty t m) (record {
  times = λ b. refl;
  normal = λ q i. let at_t : q ≡ t = ground arith in rw at_t own;
  others = λ q i e. refl;
  members = λ q. refl;
  distinct = (refl, tt);
  head = λ i. absurd (ground arith);
})
insert_loop-Placed t m (p ∷ cs) out (first, d) normal own =
    let apart : (p == t) ≡ false = ground arith in
    let absent : has t cs ≡ false = ground arith in
    elim (Bool-cases (not_later (m p).rel (m t).rel)) [
      | inl e ↦ rw (insert_loop-behind t p m cs e) (
          Placed-behind t p m cs apart absent first d normal own _ e (
            insert_loop-Placed t (passing t p m cs apart absent first d normal own) cs absent d
              (passing-AllNormal t p m cs apart absent first d normal own)
              (passing-IsNormal t p m cs apart absent first d normal own e)))
      | inr e ↦
          rw (insert_loop-before t p m cs e)
            (Placed-before t p m cs apart absent first d normal own e)
    ]
