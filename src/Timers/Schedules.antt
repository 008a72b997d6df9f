-- ===== src/Timers/Schedules.antt =====
-- The chain of the timers as a list of deadlines.
use librep.Prelude.{ℕ, ◌+◌, ◌≡◌, refl, ap, true, List, [], ◌∷◌, arith, if◌then◌else◌, leb, has}
use librep.Value.{Addr}
use librep.Timers.{Table}
use librep.Timers.Times.{IsNormal, total}

-- A timer and the milliseconds after which it fires.
pub record Deadline : Type 0 where
  pub at : ℕ
  pub timer : Addr

abbrev pub due : ℕ → Addr → Deadline
due n t = record { at = n; timer = t }

-- The deadlines of a chain that starts at the time `b`.
abbrev pub deadlines : Table → ℕ → List Addr → List Deadline
deadlines m b [] = []
deadlines m b (p ∷ cs) = due (b + total (m p).rel) p ∷ deadlines m (b + total (m p).rel) cs

-- A deadline goes behind those that are not later.
abbrev pub schedule : ℕ → Addr → List Deadline → List Deadline
schedule n t [] = due n t ∷ []
schedule n t (d ∷ ds) = if leb d.at n then d ∷ schedule n t ds else due n t ∷ d ∷ ds

abbrev pub AllNormal : Table → List Addr → Type 0
AllNormal m cs = (p : Addr) → has p cs ≡ true → IsNormal (m p).rel

pub deadlines-agree :
    (m m' : Table) (b : ℕ) (cs : List Addr)
    → ((p : Addr) → has p cs ≡ true → m' p ≡ m p)
    → deadlines m' b cs ≡ deadlines m b cs
deadlines-agree m m' b [] h = refl
deadlines-agree m m' b (p ∷ cs) h = rw (h p (ground arith)) (
    ap (λ ds. due (b + total (m p).rel) p ∷ ds)
      (deadlines-agree m m' (b + total (m p).rel) cs (λ q i. h q (ground arith))))
