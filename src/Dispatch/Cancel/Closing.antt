-- ===== src/Dispatch/Cancel/Closing.antt =====
-- Every commit of `_cancel` closes the dispatch.
use fireviewer_backend.Dispatch.Cancel.{
  cancel, cancel_answered, cancel_failed, cancel_job, cancel_status,
}
use fireviewer_backend.Dispatch.Finish.{
  Services, cancelled_row, release_lease, retry_row, schedule_poll_retry,
}
use fireviewer_backend.Dispatch.Finish.Closing.{
  Commits, IsClosed, cancelled_row-IsClosed, has_commit,
}
use fireviewer_backend.Dispatch.Poll.Closing.{IsEarned, poll-Commits, poll-IsClosed}
use fireviewer_backend.Dispatch.Rows.{Settings, Work}
use fireviewer_backend.Dispatch.Transport.{
  Reply, RunPodTransport, answered, http_error, http_status_error, status_or, value_error,
}
use fireviewer_backend.Platform.{Builtins, Platform, get_field}
use fireviewer_backend.Prelude.{All, Option, String, if_cases, none, refl, some, str_eq, ℕ, ◌≢◌}

-- The remote side answers a cancellation with an object or with an HTTP error.
abbrev pub AnswersCancel : Reply → Type 0
AnswersCancel r = (words : String) → r ≢ value_error words

module _ {C : Type 0} (P : Platform) (B : Builtins) (X : Services C) (worker_id : String)
    (S : Settings) (client : RunPodTransport) (clock : ℕ → ℕ) where
  cancel_failed-IsClosed :
      (words : String) (w : Work C)
      → All
          (IsClosed (IsEarned B X client w))
          (cancel_failed P B X worker_id S client clock words w)
  unfolding cancel_failed schedule_poll_retry retry_row release_lease
  cancel_failed-IsClosed words w =
      ((refl, (refl, refl), λ e. cc), ((refl, (refl, refl), λ e. cc), tt))

  cancel_answered-IsClosed :
      (r : Reply) (w : Work C)
      → All (IsClosed (IsEarned B X client w)) (cancel_answered P B X worker_id S client clock r w)
  unfolding cancel_answered cancel_status release_lease
  cancel_answered-IsClosed (answered f) w =
      let status = status_or B "CANCELLED" (get_field "status" f) in
      if_cases (All (IsClosed (IsEarned B X client w))) (str_eq status "COMPLETED")
        (λ _. poll-IsClosed P B X worker_id S client clock w)
        (λ _.
          if_cases (All (IsClosed (IsEarned B X client w))) (str_eq status "CANCELLED")
            (λ _. cancelled_row-IsClosed (IsEarned B X client w) P B X worker_id _ _ w)
            (λ _. ((refl, (refl, refl), λ e. cc), tt)))
  cancel_answered-IsClosed (http_status_error code words) w = cancel_failed-IsClosed words w
  cancel_answered-IsClosed (http_error words) w = cancel_failed-IsClosed words w
  cancel_answered-IsClosed (value_error words) w = (tt, tt)

  cancel_job-IsClosed :
      (j : Option String) (w : Work C)
      → All (IsClosed (IsEarned B X client w)) (cancel_job P B X worker_id S client clock j w)
  unfolding cancel_job
  cancel_job-IsClosed none w = cancelled_row-IsClosed (IsEarned B X client w) P B X worker_id _ _ w
  cancel_job-IsClosed (some j) w = (tt, cancel_answered-IsClosed (client.cancel j) w)

  pub cancel-IsClosed :
      (w : Work C)
      → All (IsClosed (IsEarned B X client w)) (cancel P B X worker_id S client clock w)
  unfolding cancel
  cancel-IsClosed w = cancel_job-IsClosed w.dispatch.remote_job_id w

  cancel_answered-Commits :
      (r : Reply) (w : Work C)
      → AnswersCancel r
      → Commits (cancel_answered P B X worker_id S client clock r w)
  unfolding cancel_answered cancel_status cancel_failed schedule_poll_retry cancelled_row has_commit
  cancel_answered-Commits (answered f) w h =
      let status = status_or B "CANCELLED" (get_field "status" f) in
      if_cases Commits (str_eq status "COMPLETED")
        (λ _. poll-Commits P B X worker_id S client clock w)
        (λ _. if_cases Commits (str_eq status "CANCELLED") (λ _. refl) (λ _. refl))
  cancel_answered-Commits (http_status_error code words) w h = refl
  cancel_answered-Commits (http_error words) w h = refl
  cancel_answered-Commits (value_error words) w h = absurd (h words refl)

  cancel_job-Commits :
      (j : Option String) (w : Work C)
      → ((job_id : String) → AnswersCancel (client.cancel job_id))
      → Commits (cancel_job P B X worker_id S client clock j w)
  unfolding cancel_job cancelled_row has_commit
  cancel_job-Commits none w h = refl
  cancel_job-Commits (some j) w h = cancel_answered-Commits (client.cancel j) w (h j)

  pub cancel-Commits :
      (w : Work C)
      → ((job_id : String) → AnswersCancel (client.cancel job_id))
      → Commits (cancel P B X worker_id S client clock w)
  unfolding cancel
  cancel-Commits w h = cancel_job-Commits w.dispatch.remote_job_id w h
