-- ===== src/Dispatch/Runs.antt =====
-- Everything that the dispatcher does to one dispatch, over any number of its processes: claims,
-- purges, and runs of the handlers that stop after any number of their actions.
pub mod AtMostOnce
pub mod Terminal
pub mod Earned
pub mod Released
-- What is durable after a run: the rows of its last commit, or the rows before.
use fireviewer_backend.Dispatch.Claim.{is_claimable, is_due, leased, purge_due_agent_media}
use fireviewer_backend.Dispatch.Finish.{Services}
use fireviewer_backend.Dispatch.Handlers.{process_claimed_dispatch}
use fireviewer_backend.Dispatch.Rows.{
  Settings, Action, AgentDispatchState, AgentMediaItem, Work, asked_cancel, asked_status, committed,
  escaped, posted,
}
use fireviewer_backend.Dispatch.Transport.{RunPodTransport}
use fireviewer_backend.Platform.{Builtins, Platform}
use fireviewer_backend.Prelude.{Bool, List, String, [], suc, true, zero, ℕ, ◌+◌, ◌∷◌, ◌≡◌}

unfoldable pub durable_after : {C : Type 0} → Work C → List (Action C) → Work C
durable_after w [] = w
durable_after w (committed v ∷ rest) = durable_after v rest
durable_after w (posted payload ∷ rest) = durable_after w rest
durable_after w (asked_status id ∷ rest) = durable_after w rest
durable_after w (asked_cancel id ∷ rest) = durable_after w rest
durable_after w (escaped words ∷ rest) = durable_after w rest

-- A process that stops after `n` actions.
unfoldable pub cut : {C : Type 0} → ℕ → List (Action C) → List (Action C)
cut zero trace = []
cut (suc n) [] = []
cut (suc n) (a ∷ trace) = a ∷ cut n trace

-- The requests to submit a job.
unfoldable pub posts : {C : Type 0} → List (Action C) → ℕ
posts [] = 0
posts (posted payload ∷ rest) = posts rest + 1
posts (committed w ∷ rest) = posts rest
posts (asked_status id ∷ rest) = posts rest
posts (asked_cancel id ∷ rest) = posts rest
posts (escaped words ∷ rest) = posts rest

module _ {C : Type 0} (P : Platform) (B : Builtins) (X : Services C) (S : Settings) where
  -- `Runs w n v`: from the durable rows `w` the dispatcher gets to the durable rows `v`, and sends `n`
  -- submissions on the way. Each step has a worker, a clock and a remote side of its own.
  pub data Runs : Work C → ℕ → Work C → Type 0 where
    idle : (w : Work C) → Runs w 0 w
    claims :
        (w : Work C) (worker_id : String) (states : AgentDispatchState → Bool) (now : ℕ)
        → ((s : AgentDispatchState) → states s ≡ true → is_claimable s ≡ true)
        → is_due S states now w.dispatch ≡ true
        → {n : ℕ} {v : Work C}
        → Runs (record w { dispatch = leased S worker_id now w.dispatch }) n v
        → Runs w n v
    processes :
        (w : Work C) (worker_id : String) (client : RunPodTransport) (clock : ℕ → ℕ) (stop : ℕ)
        → {n : ℕ} {v : Work C}
        → Runs
            (durable_after w (cut stop (process_claimed_dispatch P B X worker_id S client clock w)))
            n
            v
        → Runs w
            (posts (cut stop (process_claimed_dispatch P B X worker_id S client clock w)) + n)
            v
    purges :
        (w : Work C) (limit now : ℕ) (others : List AgentMediaItem) {n : ℕ} {v : Work C}
        → Runs (purge_due_agent_media limit now others w) n v
        → Runs w n v
