-- ===== src/Dispatch/Poll/Closing.antt =====
-- Every commit of `_poll` closes the dispatch.
use fireviewer_backend.Dispatch.Complete.Closing.{complete-Commits, complete-IsClosed}
use fireviewer_backend.Dispatch.Finish.{
  Services, WorkerOutput, accepted, cancelled_row, dead_letter, output_succeeded, release_lease,
  retry_row, schedule_poll_retry,
}
use fireviewer_backend.Dispatch.Finish.Closing.{
  Commits, IsClosed, cancelled_row-IsClosed, dead_letter-IsClosed, has_commit,
}
use fireviewer_backend.Dispatch.Poll.{
  Status, is_active_remote, is_cancel_requested, known, not_found_404, poll, poll_answered,
  poll_job, poll_known, seen, status_of, unreadable,
}
use fireviewer_backend.Dispatch.Rows.{Settings, AgentDispatch, Work}
use fireviewer_backend.Dispatch.Transport.{RunPodTransport}
use fireviewer_backend.Platform.{Builtins, Fields, Platform, get_field}
use fireviewer_backend.Prelude.{
  All, Option, String, if_cases, none, refl, some, str_eq, true, ℕ, ◌&&◌, ◌≡◌,
}

-- The success of the dispatch of `w`: the remote side answered for its job that it is completed, and the
-- validation accepted the output of that answer for the dispatch, its batch and its items, with the
-- status of a success.
pub record IsEarned {C : Type 0} (B : Builtins) (X : Services C) (client : RunPodTransport)
    (w : Work C) : Type 0 where
  pub job_id : String
  pub status : String
  pub fields : Fields
  pub dispatch : AgentDispatch
  pub output : WorkerOutput
  pub asked : w.dispatch.remote_job_id ≡ some job_id
  pub told : status_of B (client.status job_id) ≡ known status fields
  pub completed : str_eq status "COMPLETED" ≡ true
  pub same_dispatch : dispatch.dispatch_id ≡ w.dispatch.dispatch_id
  pub same_job : dispatch.remote_job_id ≡ w.dispatch.remote_job_id
  pub valid :
      X.validate_worker_output dispatch w.batch w.items (get_field "output" fields)
      ≡ accepted output
  pub success : output.status ≡ output_succeeded

module _ {C : Type 0} (E : Type 0) (P : Platform) (B : Builtins) (X : Services C)
    (worker_id : String) (S : Settings) (client : RunPodTransport) (clock : ℕ → ℕ) where
  poll_known-IsClosed :
      (status : String) (f : Fields) (w : Work C)
      → (str_eq status "COMPLETED" ≡ true
          → (o : WorkerOutput)
          → X.validate_worker_output w.dispatch w.batch w.items (get_field "output" f) ≡ accepted o
          → o.status ≡ output_succeeded
          → E)
      → All (IsClosed E) (poll_known P B X worker_id S client clock status f w)
  unfolding poll_known release_lease
  poll_known-IsClosed status f w earned =
      if_cases (All (IsClosed E)) (is_active_remote status)
        (λ _. ((refl, (refl, refl), λ e. cc), tt))
        (λ _.
          if_cases (All (IsClosed E)) (str_eq status "COMPLETED")
            (λ done. complete-IsClosed E P B X worker_id S client clock f w (earned done))
            (λ _.
              if_cases (All (IsClosed E))
                (str_eq status "CANCELLED"
                  && is_cancel_requested P B X worker_id S client clock w.batch.state)
                (λ _. cancelled_row-IsClosed E P B X worker_id _ _ w)
                (λ _. dead_letter-IsClosed E P B X worker_id _ _ _ _ w)))

module _ {C : Type 0} (P : Platform) (B : Builtins) (X : Services C) (worker_id : String)
    (S : Settings) (client : RunPodTransport) (clock : ℕ → ℕ) where
  poll_answered-IsClosed :
      (job_id : String) (s : Status) (w : Work C)
      → w.dispatch.remote_job_id ≡ some job_id
      → status_of B (client.status job_id) ≡ s
      → All (IsClosed (IsEarned B X client w)) (poll_answered P B X worker_id S client clock s w)
  unfolding poll_answered schedule_poll_retry retry_row release_lease seen
  poll_answered-IsClosed job_id not_found_404 w asked told =
      dead_letter-IsClosed (IsEarned B X client w) P B X worker_id _ _ _ _ w
  poll_answered-IsClosed job_id (unreadable words) w asked told =
      ((refl, (refl, refl), λ e. cc), tt)
  poll_answered-IsClosed job_id (known status f) w asked told =
      poll_known-IsClosed (IsEarned B X client w) P B X worker_id S client clock status f
        (seen P B X worker_id S client clock status w)
        (λ done o valid success. record {
          job_id = job_id;
          status = status;
          fields = f;
          dispatch = (seen P B X worker_id S client clock status w).dispatch;
          output = o;
          asked = asked;
          told = told;
          completed = done;
          same_dispatch = refl;
          same_job = refl;
          valid = valid;
          success = success;
        })

  poll_job-IsClosed :
      (j : Option String) (w : Work C)
      → w.dispatch.remote_job_id ≡ j
      → All (IsClosed (IsEarned B X client w)) (poll_job P B X worker_id S client clock j w)
  unfolding poll_job
  poll_job-IsClosed none w asked =
      dead_letter-IsClosed (IsEarned B X client w) P B X worker_id _ _ _ _ w
  poll_job-IsClosed (some j) w asked =
      (tt, poll_answered-IsClosed j (status_of B (client.status j)) w asked refl)

  pub poll-IsClosed :
      (w : Work C) → All (IsClosed (IsEarned B X client w)) (poll P B X worker_id S client clock w)
  unfolding poll
  poll-IsClosed w = poll_job-IsClosed w.dispatch.remote_job_id w refl

  poll_known-Commits :
      (status : String) (f : Fields) (w : Work C)
      → Commits (poll_known P B X worker_id S client clock status f w)
  unfolding poll_known dead_letter cancelled_row has_commit
  poll_known-Commits status f w =
      if_cases Commits (is_active_remote status) (λ _. refl)
        (λ _.
          if_cases Commits (str_eq status "COMPLETED")
            (λ _. complete-Commits P B X worker_id S client clock f w)
            (λ _.
              if_cases Commits
                (str_eq status "CANCELLED"
                  && is_cancel_requested P B X worker_id S client clock w.batch.state)
                (λ _. refl) (λ _. refl)))

  poll_answered-Commits :
      (s : Status) (w : Work C) → Commits (poll_answered P B X worker_id S client clock s w)
  unfolding poll_answered schedule_poll_retry dead_letter has_commit
  poll_answered-Commits not_found_404 w = refl
  poll_answered-Commits (unreadable words) w = refl
  poll_answered-Commits (known status f) w =
      poll_known-Commits status f (seen P B X worker_id S client clock status w)

  poll_job-Commits :
      (j : Option String) (w : Work C) → Commits (poll_job P B X worker_id S client clock j w)
  unfolding poll_job dead_letter has_commit
  poll_job-Commits none w = refl
  poll_job-Commits (some j) w = poll_answered-Commits (status_of B (client.status j)) w

  pub poll-Commits : (w : Work C) → Commits (poll P B X worker_id S client clock w)
  unfolding poll
  poll-Commits w = poll_job-Commits w.dispatch.remote_job_id w
