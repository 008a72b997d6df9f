-- ===== src/Timers/Times.antt =====
-- Times that are set right: no negative number, and less than a second of milliseconds.
use librep.Prelude.{
  ℕ, zero, suc, ◌+◌, ◌-◌, ◌*◌, ◌≤◌, ◌<◌, ◌≡◌, refl, ap, ◌∙◌, true, false, arith, leb, ltb,
  Bool-cases, inl, inr,
}
use librep.Prelude.Int.{pos, negsuc, pos_part, sub_ℕ, ◌-ℤ◌, ltb_ℤ}
use librep.Timers.{Time, borrow_loop, carry_loop, fix_time, minus, plus, not_later}

abbrev pub time : ℕ → ℕ → Time
time s u = record { secs = pos s; msecs = pos u }

abbrev pub IsNormal : Time → Type 0
IsNormal t = (s : ℕ) × (u : ℕ) × (t ≡ time s u) × (u < 1000)

-- Its milliseconds.
abbrev pub total : Time → ℕ
total t = pos_part t.secs * 1000 + pos_part t.msecs

borrow_loop-pos : (n s u : ℕ) → borrow_loop n (time s u) ≡ time s u
unfolding borrow_loop
borrow_loop-pos zero s u = refl
borrow_loop-pos (suc n) s u = ground arith

carry_loop-small : (n s u : ℕ) → u < 1000 → carry_loop n (time s u) ≡ time s u
unfolding carry_loop
carry_loop-small zero s u h = refl
carry_loop-small (suc n) s u h = ground arith

pub fix_time-normal : (s u : ℕ) → u < 1000 → fix_time (time s u) ≡ time s u
unfolding fix_time
fix_time-normal s u h =
    ap (carry_loop (u + 0)) (borrow_loop-pos (u + 0) s u) ∙ carry_loop-small (u + 0) s u h

borrowed :
    (s k : ℕ)
    → 0 < s
    → k < 1000
    → record { secs = pos s -ℤ pos 1; msecs = negsuc k -ℤ negsuc 999 } ≡ time (s - 1) (999 - k)
unfolding ◌-ℤ◌
borrowed s k h b = ground arith

borrow_loop-once :
    (n s k : ℕ)
    → 0 < n
    → 0 < s
    → k < 1000
    → borrow_loop n (record { secs = pos s; msecs = negsuc k }) ≡ time (s - 1) (999 - k)
unfolding borrow_loop
borrow_loop-once zero s k f h b = absurd (omega arith)
borrow_loop-once (suc n) s k f h b =
    let behind : ltb 0 (0 + suc k) ≡ true = ground arith in
    rw behind (ap (borrow_loop n) (borrowed s k h b) ∙ borrow_loop-pos n (s - 1) (999 - k))

fix_time-borrow :
    (s k : ℕ)
    → 0 < s
    → k < 1000
    → fix_time (record { secs = pos s; msecs = negsuc k }) ≡ time (s - 1) (999 - k)
unfolding fix_time
fix_time-borrow s k h b =
    ap (carry_loop (0 + suc k)) (borrow_loop-once (0 + suc k) s k (omega arith) h b)
    ∙ carry_loop-small (0 + suc k) (s - 1) (999 - k) (omega arith)

carried :
    (s u : ℕ)
    → record { secs = pos s -ℤ negsuc 0; msecs = pos (1000 + u) -ℤ pos 1000 } ≡ time (s + 1) u
unfolding ◌-ℤ◌
carried s u = ground arith

carry_loop-once : (n s u : ℕ) → 0 < n → u < 1000 → carry_loop n (time s (1000 + u)) ≡ time (s + 1) u
unfolding carry_loop
carry_loop-once zero s u f h = absurd (omega arith)
carry_loop-once (suc n) s u f h =
    let large : ltb_ℤ (pos (1000 + u)) (pos 1000) ≡ false = ground arith in
    rw large (ap (carry_loop n) (carried s u) ∙ carry_loop-small n (s + 1) u h)

fix_time-carry : (s u : ℕ) → u < 1000 → fix_time (time s (1000 + u)) ≡ time (s + 1) u
unfolding fix_time
fix_time-carry s u h =
    ap (carry_loop (1000 + u + 0)) (borrow_loop-pos (1000 + u + 0) s (1000 + u))
    ∙ carry_loop-once (1000 + u + 0) s u (omega arith) h

minus-plain :
    (s u s' u' : ℕ)
    → s' ≤ s
    → u' ≤ u
    → u < 1000
    → minus (time s u) (time s' u') ≡ time (s - s') (u - u')
unfolding minus ◌-ℤ◌
minus-plain s u s' u' p q h =
    let d : record { secs = pos s -ℤ pos s'; msecs = pos u -ℤ pos u' } ≡ time (s - s') (u - u') =
      ground arith in
    ap fix_time d ∙ fix_time-normal (s - s') (u - u') (omega arith)

minus_parts :
    (s u s' u' : ℕ)
    → s' < s
    → u < u'
    → ◌≡◌ {A = Time}
        (record { secs = pos s -ℤ pos s'; msecs = pos u -ℤ pos u' })
        (record { secs = pos (s - s'); msecs = negsuc (u' - u - 1) })
unfolding ◌-ℤ◌
minus_parts s u s' u' p q = ground arith

minus-borrow :
    (s u s' u' : ℕ)
    → s' < s
    → u < u'
    → u' < 1000
    → minus (time s u) (time s' u') ≡ time (s - s' - 1) (1000 + u - u')
unfolding minus ◌-ℤ◌
minus-borrow s u s' u' p q h =
    let k = u' - u - 1 in
    let d = minus_parts s u s' u' p q in
    let e : time (s - s' - 1) (999 - k) ≡ time (s - s' - 1) (1000 + u - u') = ground arith in
    ap fix_time d ∙ fix_time-borrow (s - s') k (omega arith) (omega arith) ∙ e

-- A difference of times that are set right, the first not before the second.
pub minus-IsNormal :
    (a b : Time)
    → IsNormal a
    → IsNormal b
    → total b ≤ total a
    → IsNormal (minus a b) × (total (minus a b) + total b ≡ total a)
minus-IsNormal a b (s, u, e, h) (s', u', e', h') le =
    let le' : s' * 1000 + u' ≤ s * 1000 + u = rw (e, e') at le in
    rw (e, e')
      (elim (Bool-cases (leb u' u)) [
        | inl plain ↦
            rw (minus-plain s u s' u' (ground arith) (ground arith) h)
              ((s - s', u - u', refl, omega arith), ground arith)
        | inr borrow ↦
            rw (minus-borrow s u s' u' (ground arith) (ground arith) h')
              ((s - s' - 1, 1000 + u - u', refl, ground arith), ground arith)
      ])

plus-plain : (s u s' u' : ℕ) → u + u' < 1000 → plus (time s u) (time s' u') ≡ time (s + s') (u + u')
unfolding plus
plus-plain s u s' u' h =
    let d : record { secs = sub_ℕ (s + s') (0 + 0); msecs = sub_ℕ (u + u') (0 + 0) }
        ≡ time (s + s') (u + u') =
      ground arith in
    ap fix_time d ∙ fix_time-normal (s + s') (u + u') h

plus-carry :
    (s u s' u' : ℕ)
    → u < 1000
    → u' < 1000
    → 1000 ≤ u + u'
    → plus (time s u) (time s' u') ≡ time (s + s' + 1) (u + u' - 1000)
unfolding plus
plus-carry s u s' u' h h' large =
    let d : record { secs = sub_ℕ (s + s') (0 + 0); msecs = sub_ℕ (u + u') (0 + 0) }
        ≡ time (s + s') (1000 + (u + u' - 1000)) =
      ground arith in
    ap fix_time d ∙ fix_time-carry (s + s') (u + u' - 1000) (omega arith)

-- A sum of times that are set right.
pub plus-IsNormal :
    (a b : Time)
    → IsNormal a
    → IsNormal b
    → IsNormal (plus a b) × (total (plus a b) ≡ total a + total b)
plus-IsNormal a b (s, u, e, h) (s', u', e', h') =
    rw (e, e')
      (elim (Bool-cases (ltb (u + u') 1000)) [
        | inl plain ↦
            rw (plus-plain s u s' u' (ground arith))
              ((s + s', u + u', refl, ground arith), omega arith)
        | inr carry ↦
            rw (plus-carry s u s' u' h h' (ground arith))
              ((s + s' + 1, u + u' - 1000, refl, ground arith), ground arith)
      ])

pub not_later-total :
    (a b : Time) → IsNormal a → IsNormal b → not_later a b ≡ leb (total a) (total b)
not_later-total a b (s, u, e, h) (s', u', e', h') = rw (e, e') (ground arith)
