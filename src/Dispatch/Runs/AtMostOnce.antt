-- ===== src/Dispatch/Runs/AtMostOnce.antt =====
-- The at-most-once fence, over every interleaving of claims, purges and interrupted runs.
-- How many submissions a dispatch may still send.
use fireviewer_backend.Dispatch.Claim.{
  cancelling_rows, is_terminal, purge_chosen, purge_due_agent_media, redacted_rows, redacted_work,
}
use fireviewer_backend.Dispatch.Finish.{Services}
use fireviewer_backend.Dispatch.Finish.Closing.{IsClosed, is_queued}
use fireviewer_backend.Dispatch.Handlers.{process_claimed_dispatch}
use fireviewer_backend.Dispatch.Handlers.Fenced.{process-IsFenced}
use fireviewer_backend.Dispatch.Poll.Closing.{IsEarned}
use fireviewer_backend.Dispatch.Rows.{
  Settings, Action, AgentMediaItem, Work, asked_cancel, asked_status, committed, escaped, posted,
}
use fireviewer_backend.Dispatch.Runs.{
  Runs, claims, cut, durable_after, idle, posts, processes, purges,
}
use fireviewer_backend.Dispatch.Submit.{fenced}
use fireviewer_backend.Dispatch.Transport.{RunPodTransport}
use fireviewer_backend.Platform.{Builtins, Platform, Value}
use fireviewer_backend.Prelude.{
  All, Bool, List, String, [], any, ap, arith, false, if_cases, if◌then◌else◌, inl, inr, refl, suc,
  zero, ℕ, ◌+◌, ◌∷◌, ◌≡◌, ◌≤◌,
}

abbrev pub allowance : {C : Type 0} → Work C → ℕ
allowance w = if is_queued w.dispatch.state then 1 else 0

allowance-none : {C : Type 0} (w : Work C) → is_queued w.dispatch.state ≡ false → allowance w ≡ 0
allowance-none w h = rw h refl

closed-posts :
    {C : Type 0} (E : Type 0) (k : ℕ) (t : List (Action C))
    → All (IsClosed E) t
    → posts (cut k t) ≡ 0
unfolding posts cut
closed-posts E zero t h = refl
closed-posts E (suc k) [] h = refl
closed-posts E (suc k) (committed w ∷ t) h = closed-posts E k t h.1
closed-posts E (suc k) (posted payload ∷ t) h = absurd h.0
closed-posts E (suc k) (asked_status id ∷ t) h = closed-posts E k t h.1
closed-posts E (suc k) (asked_cancel id ∷ t) h = closed-posts E k t h.1
closed-posts E (suc k) (escaped words ∷ t) h = closed-posts E k t h.1

closed-allowance :
    {C : Type 0} (E : Type 0) (w : Work C) (k : ℕ) (t : List (Action C))
    → All (IsClosed E) t
    → allowance (durable_after w (cut k t)) ≤ allowance w
unfolding durable_after cut
closed-allowance E w zero t h = ground arith
closed-allowance E w (suc k) [] h = ground arith
closed-allowance E w (suc k) (committed v ∷ t) h =
    let rest = closed-allowance E v k t h.1 in let spent = allowance-none v h.0.0 in ground arith
closed-allowance E w (suc k) (posted payload ∷ t) h = absurd h.0
closed-allowance E w (suc k) (asked_status id ∷ t) h = closed-allowance E w k t h.1
closed-allowance E w (suc k) (asked_cancel id ∷ t) h = closed-allowance E w k t h.1
closed-allowance E w (suc k) (escaped words ∷ t) h = closed-allowance E w k t h.1

-- The fence is durable before the request is sent, so what is sent is taken off the allowance.
fenced-allowance :
    {C : Type 0} (E : Type 0) (w v : Work C) (payload : Value) (k : ℕ) (t : List (Action C))
    → All (IsClosed E) t
    → allowance v ≡ 0
    → allowance w ≡ 1
    → posts (cut k (committed v ∷ posted payload ∷ t))
        + allowance (durable_after w (cut k (committed v ∷ posted payload ∷ t)))
      ≤ allowance w
unfolding posts durable_after cut
fenced-allowance E w v payload zero t h a b = ground arith
fenced-allowance E w v payload (suc zero) t h a b = ground arith
fenced-allowance E w v payload (suc (suc k)) t h a b =
    ground (arith, closed-posts E k t h, closed-allowance E v k t h)

module _ {C : Type 0} (P : Platform) (B : Builtins) (X : Services C) (S : Settings) where
  process-allowance :
      (w : Work C) (worker_id : String) (client : RunPodTransport) (clock : ℕ → ℕ) (k : ℕ)
      → let trace = cut k (process_claimed_dispatch P B X worker_id S client clock w) in
        posts trace + allowance (durable_after w trace) ≤ allowance w
  process-allowance w worker_id client clock k =
      elim (process-IsFenced P B X worker_id S client clock w) [
        | inl ends ↦ ground (
          arith,
          closed-posts (IsEarned B X client w) k _ ends,
          closed-allowance (IsEarned B X client w) w k _ ends,
        )
        | inr (was_queued, (rest, ends, _, same)) ↦ rw same (
            fenced-allowance (IsEarned B X client w) w (fenced P B X worker_id S client clock w)
              w.dispatch.payload k rest ends (unfold fenced in refl)
              (ap (λ s. if is_queued s then 1 else 0) was_queued))
      ]

  purge-allowance :
      (w : Work C) (chosen : AgentMediaItem → Bool) (now : ℕ)
      → allowance (purge_chosen chosen now w) ≤ allowance w
  unfolding purge_chosen redacted_work
  purge-allowance w chosen now =
      if_cases (λ (v : Work C). allowance v ≤ allowance w) (any chosen w.items)
        {x = redacted_work chosen now w} {y = w}
        (λ _.
          if_cases (λ (v : Work C). allowance v ≤ allowance w) (is_terminal w.dispatch.state)
            {x = redacted_rows chosen now w} {y = cancelling_rows chosen now w} (λ _. ground arith)
            (λ _. ground arith))
        (λ _. ground arith)

  purged-allowance :
      (w : Work C) (limit now : ℕ) (others : List AgentMediaItem)
      → allowance (purge_due_agent_media limit now others w) ≤ allowance w
  unfolding purge_due_agent_media
  purged-allowance w limit now others = purge-allowance w _ now

  -- However often the dispatch is claimed, whichever workers run it with whatever clocks and answers,
  -- and wherever their runs stop, at most one submission is sent from a queued dispatch and none from
  -- any other.
  pub at_most_once : {w v : Work C} {n : ℕ} → Runs P B X S w n v → n ≤ allowance w
  at_most_once (idle w) = ground arith
  at_most_once (claims w worker_id states now only due rest) = at_most_once rest
  at_most_once (processes w worker_id client clock stop rest) =
      ground (arith, at_most_once rest, process-allowance w worker_id client clock stop)
  at_most_once (purges w limit now others rest) =
      ground (arith, at_most_once rest, purged-allowance w limit now others)
