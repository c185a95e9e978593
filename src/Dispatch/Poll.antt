-- ===== src/Dispatch/Poll.antt =====
-- Reading the status of a remote job: `_poll`.
pub mod Closing
-- `ACTIVE_REMOTE_STATES` and `TERMINAL_REMOTE_STATES`
use fireviewer_backend.Dispatch.Complete.{complete}
use fireviewer_backend.Dispatch.Finish.{
  Services, cancelled_row, dead_letter, die, release_lease, schedule_poll_retry,
}
use fireviewer_backend.Dispatch.Rows.{
  Action, AgentBatchState, AgentDispatchState, Settings, Work, asked_status, committed, second,
}
use fireviewer_backend.Dispatch.Transport.{
  Reply, RunPodTransport, answered, http_error, http_status_error, value_error,
}
use fireviewer_backend.Platform.{Builtins, Fields, Platform, Value, get_field, text}
use fireviewer_backend.Prelude.{
  Bool, List, Option, String, [], false, if◌then◌else◌, none, some, str_append, str_eq, true, ℕ,
  ◌&&◌, ◌*◌, ◌+◌, ◌==◌, ◌||◌, ◌∷◌,
}

unfoldable pub is_active_remote : String → Bool
is_active_remote s = str_eq s "IN_QUEUE" || str_eq s "IN_PROGRESS" || str_eq s "RUNNING"

unfoldable pub is_terminal_remote : String → Bool
is_terminal_remote s =
    str_eq s "COMPLETED" || str_eq s "FAILED" || str_eq s "CANCELLED" || str_eq s "TIMED_OUT"

-- What `_poll` makes of the answer of `client.status`.
pub data Status : Type 0 where
  known : String → Fields → Status
  not_found_404 : Status
  unreadable : String → Status

read_status : Builtins → Fields → Option Value → Status
unfolding is_active_remote is_terminal_remote
read_status B f (some (text raw)) =
    if is_active_remote (B.upper raw) || is_terminal_remote (B.upper raw)
    then known (B.upper raw) f
    else unreadable (str_append "Unknown RunPod job status: " (B.upper raw))
read_status B f _ = unreadable "RunPod status response has no status string"

unfoldable pub status_of : Builtins → Reply → Status
unfolding read_status
status_of B (answered f) = read_status B f (get_field "status" f)
status_of B (http_status_error code words) = if code == 404 then not_found_404 else unreadable words
status_of B (http_error words) = unreadable words
status_of B (value_error words) = unreadable words

module _ {C : Type 0} (P : Platform) (B : Builtins) (X : Services C) (worker_id : String)
    (S : Settings) (client : RunPodTransport) (clock : ℕ → ℕ) where
  abbrev pub polled : Work C → Work C
  polled w = record w { dispatch = record w.dispatch { poll_count = w.dispatch.poll_count + 1 } }

  abbrev is_cancel_requested : AgentBatchState → Bool
  is_cancel_requested AgentBatchState.cancel_requested = true
  is_cancel_requested _ = false

  -- `_poll` from the readable status on; `w` has the counter, the time and the status written.
  poll_known : String → Fields → Work C → List (Action C)
  unfolding complete cancelled_row release_lease dead_letter is_active_remote
  poll_known status f w =
      if is_active_remote status
      then (committed (record w {
        dispatch = release_lease (record w.dispatch {
          state = AgentDispatchState.poll_wait;
          next_attempt_at = some (clock 2 + S.agent_poll_interval_seconds * second);
          last_error_code = none;
          last_error_detail = none;
        });
        batch = record w.batch {
          state =
              if str_eq status "IN_QUEUE" then AgentBatchState.queued else AgentBatchState.running;
        };
      })
          ∷ [])
      else if str_eq status "COMPLETED"
      then complete P B X worker_id S client clock f w
      else if str_eq status "CANCELLED" && is_cancel_requested w.batch.state
      then cancelled_row P B X worker_id (clock 2) w.dispatch.remote_status w
      else die P B X worker_id clock "remote_failure"
          (str_append "agent_remote_" (B.casefold status))
          (str_append "RunPod reached terminal state " (str_append status ".")) w

  seen : String → Work C → Work C
  seen status w = record w {
    dispatch = record w.dispatch {
      poll_count = w.dispatch.poll_count + 1;
      last_polled_at = some (clock 2);
      remote_status = some status;
    };
  }

  poll_answered : Status → Work C → List (Action C)
  unfolding poll_known seen schedule_poll_retry dead_letter
  poll_answered not_found_404 w =
      die P B X worker_id clock "remote_failure" "agent_remote_not_found"
        "The configured RunPod worker no longer has this submitted job." w
  poll_answered (unreadable words) w =
      schedule_poll_retry P B X worker_id S "agent_status_unavailable"
        (str_append "RunPod status could not be read: " words) (clock 3) (polled w)
  poll_answered (known status f) w = poll_known status f (seen status w)

  poll_job : Option String → Work C → List (Action C)
  unfolding poll_answered dead_letter
  poll_job none w =
      die P B X worker_id clock "state_corruption" "agent_remote_job_id_missing"
        "A pollable dispatch has no persisted RunPod job id." w
  poll_job (some job_id) w =
      asked_status job_id ∷ poll_answered (status_of B (client.status job_id)) w

  unfoldable pub poll : Work C → List (Action C)
  unfolding poll_job
  poll w = poll_job w.dispatch.remote_job_id w
