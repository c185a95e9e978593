-- ===== src/Dispatch/Cancel.antt =====
-- Cancelling a dispatch: `_cancel`.
pub mod Closing
use fireviewer_backend.Dispatch.Finish.{
  Services, cancelled_row, release_lease, retry_row, schedule_poll_retry,
}
use fireviewer_backend.Dispatch.Poll.{poll, polled}
use fireviewer_backend.Dispatch.Rows.{
  Action, AgentBatchState, AgentDispatchState, Settings, Work, asked_cancel, committed, escaped,
  second,
}
use fireviewer_backend.Dispatch.Transport.{
  Reply, RunPodTransport, answered, http_error, http_status_error, status_or, value_error,
}
use fireviewer_backend.Platform.{Builtins, Platform, get_field}
use fireviewer_backend.Prelude.{
  List, Option, String, [], if◌then◌else◌, none, some, str_append, str_eq, ℕ, ◌*◌, ◌++◌, ◌+◌, ◌∷◌,
}

module _ {C : Type 0} (P : Platform) (B : Builtins) (X : Services C) (worker_id : String)
    (S : Settings) (client : RunPodTransport) (clock : ℕ → ℕ) where
  abbrev ask_again : Work C → Work C
  ask_again w = record w {
    dispatch = record w.dispatch { state = AgentDispatchState.cancel_requested };
    batch = record w.batch { state = AgentBatchState.cancel_requested };
  }

  cancel_status : String → Work C → List (Action C)
  unfolding poll cancelled_row release_lease
  cancel_status status w =
      if str_eq status "COMPLETED"
      then poll P B X worker_id S client clock w
      else if str_eq status "CANCELLED"
      then cancelled_row P B X worker_id (clock 1) (some "CANCELLED") w
      else committed (
          ask_again (record w {
            dispatch = release_lease (record w.dispatch {
              remote_status = some status;
              next_attempt_at = some (clock 1 + S.agent_poll_interval_seconds * second);
            });
          }))
        ∷ []

  cancel_failed : String → Work C → List (Action C)
  unfolding schedule_poll_retry retry_row
  cancel_failed words w =
      let detail = str_append "RunPod cancellation could not be confirmed: " words in
      schedule_poll_retry P B X worker_id S "agent_cancel_unavailable" detail (clock 3)
        (polled P B X worker_id S client clock w)
      ++ committed (
          ask_again (
            retry_row P B X worker_id S "agent_cancel_unavailable" detail (clock 3)
              (polled P B X worker_id S client clock w)))
        ∷ []

  cancel_answered : Reply → Work C → List (Action C)
  unfolding cancel_status cancel_failed
  cancel_answered (answered f) w = cancel_status (status_or B "CANCELLED" (get_field "status" f)) w
  cancel_answered (http_status_error code words) w = cancel_failed words w
  cancel_answered (http_error words) w = cancel_failed words w
  cancel_answered (value_error words) w = escaped words ∷ []

  cancel_job : Option String → Work C → List (Action C)
  unfolding cancel_answered cancelled_row
  cancel_job none w = cancelled_row P B X worker_id (clock 1) w.dispatch.remote_status w
  cancel_job (some job_id) w = asked_cancel job_id ∷ cancel_answered (client.cancel job_id) w

  unfoldable pub cancel : Work C → List (Action C)
  unfolding cancel_job
  cancel w = cancel_job w.dispatch.remote_job_id w
