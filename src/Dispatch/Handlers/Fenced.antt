-- ===== src/Dispatch/Handlers/Fenced.antt =====
-- Each run has one of two shapes: it sends nothing and closes the dispatch, or it is fenced.
use fireviewer_backend.Dispatch.Cancel.Closing.{AnswersCancel, cancel-Commits, cancel-IsClosed}
use fireviewer_backend.Dispatch.Finish.{Services, dead_letter}
use fireviewer_backend.Dispatch.Finish.Closing.{Commits, IsClosed, dead_letter-IsClosed, has_commit}
use fireviewer_backend.Dispatch.Handlers.{
  by_state, expire_answered, expire_job, is_owner, is_past, process_claimed_dispatch,
}
use fireviewer_backend.Dispatch.Poll.Closing.{IsEarned, poll-Commits, poll-IsClosed}
use fireviewer_backend.Dispatch.Rows.{Settings, AgentDispatchState, Work}
use fireviewer_backend.Dispatch.Submit.Fence.{IsFenced, submit-Commits, submit-IsFenced}
use fireviewer_backend.Dispatch.Transport.{
  Reply, RunPodTransport, answered, http_error, http_status_error, value_error,
}
use fireviewer_backend.Platform.{Builtins, Platform}
use fireviewer_backend.Prelude.{
  All, Option, String, eq_refl, if_cases, inl, none, not, refl, some, true, ℕ, ◌≡◌,
}

module _ {C : Type 0} (E : Type 0) (P : Platform) (B : Builtins) (X : Services C)
    (worker_id : String) (S : Settings) (client : RunPodTransport) (clock : ℕ → ℕ) where
  expire_answered-IsClosed :
      (r : Reply) (w : Work C)
      → All (IsClosed E) (expire_answered P B X worker_id S client clock r w)
  unfolding expire_answered
  expire_answered-IsClosed (answered f) w = dead_letter-IsClosed E P B X worker_id _ _ _ _ w
  expire_answered-IsClosed (http_status_error code words) w =
      dead_letter-IsClosed E P B X worker_id _ _ _ _ w
  expire_answered-IsClosed (http_error words) w = dead_letter-IsClosed E P B X worker_id _ _ _ _ w
  expire_answered-IsClosed (value_error words) w = (tt, tt)

  expire_job-IsClosed :
      (j : Option String) (w : Work C)
      → All (IsClosed E) (expire_job P B X worker_id S client clock j w)
  unfolding expire_job
  expire_job-IsClosed none w = dead_letter-IsClosed E P B X worker_id _ _ _ _ w
  expire_job-IsClosed (some j) w = (tt, expire_answered-IsClosed (client.cancel j) w)

module _ {C : Type 0} (P : Platform) (B : Builtins) (X : Services C) (worker_id : String)
    (S : Settings) (client : RunPodTransport) (clock : ℕ → ℕ) where
  by_state-IsFenced :
      (s : AgentDispatchState) (w : Work C)
      → w.dispatch.state ≡ s
      → IsFenced P B X worker_id S client clock
          (IsEarned B X client w)
          w
          (by_state P B X worker_id S client clock s w)
  unfolding by_state
  by_state-IsFenced AgentDispatchState.queued w h =
      submit-IsFenced (IsEarned B X client w) P B X worker_id S client clock w h
  by_state-IsFenced AgentDispatchState.submitting w h =
      inl (dead_letter-IsClosed (IsEarned B X client w) P B X worker_id _ _ _ _ w)
  by_state-IsFenced AgentDispatchState.awaiting_remote w h =
      inl (poll-IsClosed P B X worker_id S client clock w)
  by_state-IsFenced AgentDispatchState.poll_wait w h =
      inl (poll-IsClosed P B X worker_id S client clock w)
  by_state-IsFenced AgentDispatchState.succeeded w h =
      inl (poll-IsClosed P B X worker_id S client clock w)
  by_state-IsFenced AgentDispatchState.partial_failure w h =
      inl (poll-IsClosed P B X worker_id S client clock w)
  by_state-IsFenced AgentDispatchState.failed w h =
      inl (poll-IsClosed P B X worker_id S client clock w)
  by_state-IsFenced AgentDispatchState.dead_letter w h =
      inl (poll-IsClosed P B X worker_id S client clock w)
  by_state-IsFenced AgentDispatchState.cancel_requested w h =
      inl (cancel-IsClosed P B X worker_id S client clock w)
  by_state-IsFenced AgentDispatchState.cancelled w h =
      inl (poll-IsClosed P B X worker_id S client clock w)

  pub process-IsFenced :
      (w : Work C)
      → IsFenced P B X worker_id S client clock
          (IsEarned B X client w)
          w
          (process_claimed_dispatch P B X worker_id S client clock w)
  unfolding process_claimed_dispatch
  process-IsFenced w =
      if_cases (IsFenced P B X worker_id S client clock (IsEarned B X client w) w)
        (not (is_owner P B X worker_id S client clock w.dispatch.lease_owner)) (λ _. inl tt)
        (λ _.
          if_cases (IsFenced P B X worker_id S client clock (IsEarned B X client w) w)
            (is_past P B X worker_id S client clock w.dispatch.deadline_at (clock 0))
            (λ _. inl (
              expire_job-IsClosed (IsEarned B X client w) P B X worker_id S client clock
                w.dispatch.remote_job_id w))
            (λ _. by_state-IsFenced w.dispatch.state w refl))

  expire_answered-Commits :
      (r : Reply) (w : Work C)
      → AnswersCancel r
      → Commits (expire_answered P B X worker_id S client clock r w)
  unfolding expire_answered dead_letter has_commit
  expire_answered-Commits (answered f) w h = refl
  expire_answered-Commits (http_status_error code words) w h = refl
  expire_answered-Commits (http_error words) w h = refl
  expire_answered-Commits (value_error words) w h = absurd (h words refl)

  expire_job-Commits :
      (j : Option String) (w : Work C)
      → ((job_id : String) → AnswersCancel (client.cancel job_id))
      → Commits (expire_job P B X worker_id S client clock j w)
  unfolding expire_job dead_letter has_commit
  expire_job-Commits none w h = refl
  expire_job-Commits (some j) w h = expire_answered-Commits (client.cancel j) w (h j)

  by_state-Commits :
      (s : AgentDispatchState) (w : Work C)
      → ((job_id : String) → AnswersCancel (client.cancel job_id))
      → Commits (by_state P B X worker_id S client clock s w)
  unfolding by_state dead_letter has_commit
  by_state-Commits AgentDispatchState.queued w h = submit-Commits P B X worker_id S client clock w
  by_state-Commits AgentDispatchState.submitting w h = refl
  by_state-Commits AgentDispatchState.awaiting_remote w h =
      poll-Commits P B X worker_id S client clock w
  by_state-Commits AgentDispatchState.poll_wait w h = poll-Commits P B X worker_id S client clock w
  by_state-Commits AgentDispatchState.succeeded w h = poll-Commits P B X worker_id S client clock w
  by_state-Commits AgentDispatchState.partial_failure w h =
      poll-Commits P B X worker_id S client clock w
  by_state-Commits AgentDispatchState.failed w h = poll-Commits P B X worker_id S client clock w
  by_state-Commits AgentDispatchState.dead_letter w h =
      poll-Commits P B X worker_id S client clock w
  by_state-Commits AgentDispatchState.cancel_requested w h =
      cancel-Commits P B X worker_id S client clock w h
  by_state-Commits AgentDispatchState.cancelled w h = poll-Commits P B X worker_id S client clock w

  owner-is_owner :
      (o : Option String) → o ≡ some worker_id → is_owner P B X worker_id S client clock o ≡ true
  unfolding is_owner
  owner-is_owner o h = rw h (rw (eq_refl worker_id) refl)

  pub process-Commits :
      (w : Work C)
      → w.dispatch.lease_owner ≡ some worker_id
      → ((job_id : String) → AnswersCancel (client.cancel job_id))
      → Commits (process_claimed_dispatch P B X worker_id S client clock w)
  unfolding process_claimed_dispatch
  process-Commits w owner answers = rw (owner-is_owner w.dispatch.lease_owner owner) (
      if_cases Commits (is_past P B X worker_id S client clock w.dispatch.deadline_at (clock 0))
        (λ _. expire_job-Commits w.dispatch.remote_job_id w answers)
        (λ _. by_state-Commits w.dispatch.state w answers))
