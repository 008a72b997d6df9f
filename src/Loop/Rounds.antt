-- ===== src/Loop/Rounds.antt =====
-- The rounds of a polled loop, from what its first half does.
use librep.Prelude.{ℕ, zero, suc, ◌≡◌}
use librep.Loop.{Round, leave, again, poll_loop}

module _ {ℓ κ} {S : Type ℓ} {R : Type κ} (step : S → Round S R) (rest : S → S) (stop : S → R) where
  pub poll_loop-leave :
      (n : ℕ) (s : S) (r : R) → step s ≡ leave r → poll_loop step rest stop n s ≡ (r, n)
  unfolding poll_loop
  poll_loop-leave zero s r e = rw (e, poll_loop)
  poll_loop-leave (suc n) s r e = rw (e, poll_loop)

  pub poll_loop-again :
      (n : ℕ) (s t : S)
      → step s ≡ again t
      → poll_loop step rest stop (suc n) s ≡ poll_loop step rest stop n (rest t)
  unfolding poll_loop
  poll_loop-again n s t e = rw (e, poll_loop)

  pub poll_loop-stop : (s t : S) → step s ≡ again t → poll_loop step rest stop zero s ≡ (stop t, 0)
  unfolding poll_loop
  poll_loop-stop s t e = rw (e, poll_loop)
