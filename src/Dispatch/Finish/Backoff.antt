-- ===== src/Dispatch/Finish/Backoff.antt =====
-- The delay before the next poll.
use fireviewer_backend.Dispatch.Finish.{Services, poll_delay}
use fireviewer_backend.Dispatch.Rows.{Settings}
use fireviewer_backend.Platform.{Builtins, Platform}
use fireviewer_backend.Prelude.{String, arith, min, suc, zero, ℕ, ◌*◌, ◌+◌, ◌^◌, ◌≡◌, ◌≤◌}

factor : ℕ → ℕ
factor n = 2 ^ min n 6

capped : (n : ℕ) → min (suc (suc (suc (suc (suc (suc n)))))) 6 ≡ 6
capped n = ground arith

capped_more : (n : ℕ) → min (suc (suc (suc (suc (suc (suc n))))) + 1) 6 ≡ 6
capped_more n = ground arith

factor-bounds : (n : ℕ) → (1 ≤ factor n) × (factor n ≤ factor (n + 1))
unfolding factor
factor-bounds zero = (ground arith, ground arith)
factor-bounds (suc zero) = (ground arith, ground arith)
factor-bounds (suc (suc zero)) = (ground arith, ground arith)
factor-bounds (suc (suc (suc zero))) = (ground arith, ground arith)
factor-bounds (suc (suc (suc (suc zero)))) = (ground arith, ground arith)
factor-bounds (suc (suc (suc (suc (suc zero))))) = (ground arith, ground arith)
factor-bounds (suc (suc (suc (suc (suc (suc n)))))) =
    rw (capped n) (rw (capped_more n) (ground arith, ground arith))

product-≤ : (i : ℕ) {f g : ℕ} → f ≤ g → i * f ≤ i * g
product-≤ zero h = ground arith
product-≤ (suc i) h = ground (arith, product-≤ i h)

module _ {C : Type 0} (P : Platform) (B : Builtins) (X : Services C) (worker_id : String) where
  -- For a poll interval of at most 300 seconds, as the settings demand, the delay before the next poll
  -- lies between the interval and 300 seconds, and does not shrink as the polls add up.
  pub poll_delay-bounds :
      (S : Settings) (n : ℕ)
      → S.agent_poll_interval_seconds ≤ 300
      → (S.agent_poll_interval_seconds ≤ poll_delay P B X worker_id S n)
        × (poll_delay P B X worker_id S n ≤ 300)
        × (poll_delay P B X worker_id S n ≤ poll_delay P B X worker_id S (n + 1))
  unfolding poll_delay
  poll_delay-bounds S n h =
      let i = S.agent_poll_interval_seconds in
      let (one, more) = factor-bounds n in
      let least = product-≤ i one in
      let most = product-≤ i more in
      unfold factor in (ground (arith, least), ground arith, ground (arith, most))
