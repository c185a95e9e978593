-- ===== src/Dispatch/Runs/Released.antt =====
-- A run that is not interrupted gives the lease back.
use fireviewer_backend.Dispatch.Cancel.Closing.{AnswersCancel}
use fireviewer_backend.Dispatch.Finish.{Services}
use fireviewer_backend.Dispatch.Finish.Closing.{IsClosed, IsFree, has_commit}
use fireviewer_backend.Dispatch.Handlers.{process_claimed_dispatch}
use fireviewer_backend.Dispatch.Handlers.Fenced.{process-Commits, process-IsFenced}
use fireviewer_backend.Dispatch.Poll.Closing.{IsEarned}
use fireviewer_backend.Dispatch.Rows.{
  Settings, Action, Work, asked_cancel, asked_status, committed, escaped, posted,
}
use fireviewer_backend.Dispatch.Runs.{durable_after}
use fireviewer_backend.Dispatch.Submit.{fenced}
use fireviewer_backend.Dispatch.Transport.{RunPodTransport}
use fireviewer_backend.Platform.{Builtins, Platform, Value}
use fireviewer_backend.Prelude.{All, List, String, [], inl, inr, some, true, ℕ, ◌∷◌, ◌≡◌, ◌⊎◌}

closed-lease :
    {C : Type 0} (E : Type 0) (w : Work C) (t : List (Action C))
    → All (IsClosed E) t
    → (has_commit t ≡ true) ⊎ IsFree w.dispatch
    → IsFree (durable_after w t).dispatch
unfolding durable_after has_commit
closed-lease E w [] h (inl e) = cc
closed-lease E w [] h (inr e) = e
closed-lease E w (committed v ∷ t) h e = closed-lease E v t h.1 (inr h.0.1)
closed-lease E w (posted payload ∷ t) h e = absurd h.0
closed-lease E w (asked_status id ∷ t) h e = closed-lease E w t h.1 e
closed-lease E w (asked_cancel id ∷ t) h e = closed-lease E w t h.1 e
closed-lease E w (escaped words ∷ t) h e = closed-lease E w t h.1 e

fenced-lease :
    {C : Type 0} (E : Type 0) (w v : Work C) (payload : Value) (t : List (Action C))
    → All (IsClosed E) t
    → has_commit t ≡ true
    → IsFree (durable_after w (committed v ∷ posted payload ∷ t)).dispatch
unfolding durable_after
fenced-lease E w v payload t h e = closed-lease E v t h (inl e)

module _ {C : Type 0} (P : Platform) (B : Builtins) (X : Services C) (worker_id : String)
    (S : Settings) (client : RunPodTransport) (clock : ℕ → ℕ) where
  -- A run of the worker that holds the lease, if it is not interrupted and the remote side answers a
  -- cancellation with an object or with an HTTP error, leaves the dispatch without an owner of the
  -- lease and without a time for it.
  pub process-releases :
      (w : Work C)
      → w.dispatch.lease_owner ≡ some worker_id
      → ((job_id : String) → AnswersCancel (client.cancel job_id))
      → let v = durable_after w (process_claimed_dispatch P B X worker_id S client clock w) in
        IsFree v.dispatch
  process-releases w owner answers =
      let done = process-Commits P B X worker_id S client clock w owner answers in
      elim (process-IsFenced P B X worker_id S client clock w) [
        | inl ends ↦ closed-lease (IsEarned B X client w) w _ ends (inl done)
        | inr (was_queued, (rest, ends, commits, same)) ↦ rw same (
            fenced-lease (IsEarned B X client w) w (fenced P B X worker_id S client clock w)
              w.dispatch.payload rest ends commits)
      ]
