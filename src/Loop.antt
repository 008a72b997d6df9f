-- ===== src/Loop.antt =====
-- The loops of the subrs: `while (...) { ...; rep_TEST_INT; if (rep_INTERRUPTP) return 0; ... }`.
-- The user's interrupt may come at any poll: `polls` is the number of polls that still find none,
-- so it is the environment's choice and a bound on the rounds at once.
pub mod Rounds
use librep.Prelude.{ℕ, zero, suc}

-- The first half of a round: the loop is left with a result, or its body runs up to the poll.
pub data Round {ℓ κ} (S : Type ℓ) (R : Type κ) : Type (ℓ ⊔ κ) where
  leave : R → Round S R
  again : S → Round S R

module _ {ℓ κ} {S : Type ℓ} {R : Type κ} (step : S → Round S R) (rest : S → S) (stop : S → R) where
  -- The result, and the polls that are left. `rest` is what the body does after the poll, and `stop`
  -- what an interrupted loop returns.
  unfoldable pub poll_loop : ℕ → S → R × ℕ
  poll_loop zero s = elim (step s) [ leave r ↦ (r, 0) | again s' ↦ (stop s', 0) ]
  poll_loop (suc n) s = elim (step s) [ leave r ↦ (r, suc n) | again s' ↦ poll_loop n (rest s') ]

-- A body that ends with the poll.
abbrev pub no_rest {ℓ} : {S : Type ℓ} → S → S
no_rest s = s
