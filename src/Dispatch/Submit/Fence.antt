-- ===== src/Dispatch/Submit/Fence.antt =====
-- `_submit` sends nothing and closes the dispatch, or commits the fence and then sends one request.
use fireviewer_backend.Dispatch.Finish.{Services, audit, dead_letter, release_lease}
use fireviewer_backend.Dispatch.Finish.Closing.{Commits, IsClosed, dead_letter-IsClosed, has_commit}
use fireviewer_backend.Dispatch.Rows.{Settings, Action, AgentDispatchState, Work, committed, posted}
use fireviewer_backend.Dispatch.Submit.{
  Job, after_submit, fenced, job, job_of, no_job, submit, submit_answered,
}
use fireviewer_backend.Dispatch.Transport.{
  Reply, RunPodTransport, answered, http_error, http_status_error, value_error,
}
use fireviewer_backend.Platform.{Builtins, Fields, Platform, end}
use fireviewer_backend.Prelude.{All, List, String, if_cases, inl, inr, leb, refl, ℕ, ◌∷◌, ◌≡◌, ◌⊎◌}

module _ {C : Type 0} (E : Type 0) (P : Platform) (B : Builtins) (X : Services C)
    (worker_id : String) (S : Settings) (client : RunPodTransport) (clock : ℕ → ℕ) where
  after_submit-IsClosed :
      (j : Job) (f : Fields) (w : Work C)
      → All (IsClosed E) (after_submit P B X worker_id S client clock j f w)
  unfolding after_submit audit release_lease
  after_submit-IsClosed (no_job words) f w = dead_letter-IsClosed E P B X worker_id _ _ _ _ w
  after_submit-IsClosed (job id) f w = ((refl, (refl, refl), λ e. cc), tt)

  submit_answered-IsClosed :
      (r : Reply) (w : Work C)
      → All (IsClosed E) (submit_answered P B X worker_id S client clock r w)
  unfolding submit_answered
  submit_answered-IsClosed (answered f) w = after_submit-IsClosed (job_of f) f w
  submit_answered-IsClosed (http_status_error code words) w =
      after_submit-IsClosed (no_job words) end w
  submit_answered-IsClosed (http_error words) w = after_submit-IsClosed (no_job words) end w
  submit_answered-IsClosed (value_error words) w = after_submit-IsClosed (no_job words) end w

module _ {C : Type 0} (P : Platform) (B : Builtins) (X : Services C) (worker_id : String)
    (S : Settings) (client : RunPodTransport) (clock : ℕ → ℕ) where
  -- The two shapes of a run: it sends nothing and closes the dispatch, or starts with the fence and one
  -- request.
  abbrev pub IsFenced : Type 0 → Work C → List (Action C) → Type 0
  IsFenced E w trace =
      All (IsClosed E) trace
      ⊎ ((w.dispatch.state ≡ AgentDispatchState.queued)
          × ((rest : List (Action C)) × All (IsClosed E) rest
              × Commits rest
              × (trace
                  ≡ committed (fenced P B X worker_id S client clock w)
                    ∷ posted w.dispatch.payload
                    ∷ rest)))

  after_submit-Commits :
      (j : Job) (f : Fields) (w : Work C)
      → Commits (after_submit P B X worker_id S client clock j f w)
  unfolding after_submit dead_letter has_commit
  after_submit-Commits (no_job words) f w = refl
  after_submit-Commits (job id) f w = refl

  submit_answered-Commits :
      (r : Reply) (w : Work C) → Commits (submit_answered P B X worker_id S client clock r w)
  unfolding submit_answered
  submit_answered-Commits (answered f) w = after_submit-Commits (job_of f) f w
  submit_answered-Commits (http_status_error code words) w =
      after_submit-Commits (no_job words) end w
  submit_answered-Commits (http_error words) w = after_submit-Commits (no_job words) end w
  submit_answered-Commits (value_error words) w = after_submit-Commits (no_job words) end w

  pub submit-Commits : (w : Work C) → Commits (submit P B X worker_id S client clock w)
  unfolding submit dead_letter has_commit
  submit-Commits w =
      if_cases Commits (leb w.dispatch.max_attempts w.dispatch.attempt) (λ _. refl) (λ _. refl)

module _ {C : Type 0} (E : Type 0) (P : Platform) (B : Builtins) (X : Services C)
    (worker_id : String) (S : Settings) (client : RunPodTransport) (clock : ℕ → ℕ) where
  pub submit-IsFenced :
      (w : Work C)
      → w.dispatch.state ≡ AgentDispatchState.queued
      → IsFenced P B X worker_id S client clock E w (submit P B X worker_id S client clock w)
  unfolding submit
  submit-IsFenced w h =
      if_cases (IsFenced P B X worker_id S client clock E w)
        (leb w.dispatch.max_attempts w.dispatch.attempt)
        (λ _. inl (dead_letter-IsClosed E P B X worker_id _ _ _ _ w))
        (λ _. inr (
          h,
          (
            _,
            submit_answered-IsClosed E P B X worker_id S client clock
                (client.submit w.dispatch.payload) (fenced P B X worker_id S client clock w),
            submit_answered-Commits P B X worker_id S client clock
                (client.submit w.dispatch.payload) (fenced P B X worker_id S client clock w),
            refl,
          ),
        ))
