-- ===== src/Dispatch/Submit.antt =====
-- Submission behind the at-most-once fence: `_submit`. A run is the list of its actions; `clock k` is
-- what the clock shows at the k-th reading on the way of the run.
pub mod Fence
use fireviewer_backend.Dispatch.Finish.{Services, audit, dead_letter, die, release_lease}
use fireviewer_backend.Dispatch.Rows.{
  Action, AgentBatchState, AgentDispatchState, Settings, Work, committed, posted, second,
}
use fireviewer_backend.Dispatch.Transport.{
  Reply, RunPodTransport, answered, http_error, http_status_error, status_or, value_error,
}
use fireviewer_backend.Incident.Transition.{attempt}
use fireviewer_backend.Platform.{Builtins, Fields, Platform, end, get_field, object, text}
use fireviewer_backend.Prelude.{
  List, String, [], if◌then◌else◌, leb, none, some, str_append, str_eq, ℕ, ◌*◌, ◌+◌, ◌∷◌,
}

pub data Job : Type 0 where
  job : String → Job
  no_job : String → Job

-- `response["id"]`, with the text of the KeyError or ValueError.
unfoldable pub job_of : Fields → Job
job_of f = elim (get_field "id" f) [
  | some v ↦ elim v [
    | text id ↦ if str_eq id "" then no_job "RunPod submission response has no job id" else job id
    | _ ↦ no_job "RunPod submission response has no job id"
  ]
  | none ↦ no_job "'id'"
]

module _ {C : Type 0} (P : Platform) (B : Builtins) (X : Services C) (worker_id : String)
    (S : Settings) (client : RunPodTransport) (clock : ℕ → ℕ) where
  after_submit : Job → Fields → Work C → List (Action C)
  unfolding dead_letter release_lease audit
  after_submit (no_job words) f w =
      die P B X worker_id clock "ambiguous_submission" "agent_submission_ambiguous"
        (str_append "RunPod submission outcome is ambiguous: " words) w
  after_submit (job id) f w =
      committed (
        audit P B X worker_id
          (record {
            action = "agent.dispatch_submitted";
            target_type = "agent_dispatch";
            target_id = w.dispatch.dispatch_id;
            reason = "Private agent batch accepted by the configured RunPod endpoint.";
            trace_id = w.batch.trace_id;
            before = none;
            after = some (
                object (
                  ("remote_job_id", text id)
                  ∷ ("payload_hash", text w.dispatch.payload_hash)
                  ∷ []));
            payload = object [];
          })
          (record w {
            dispatch = release_lease (record w.dispatch {
              remote_job_id = some id;
              remote_status = some (status_or B "IN_QUEUE" (get_field "status" f));
              state = AgentDispatchState.poll_wait;
              submitted_at = some (clock 3);
              next_attempt_at = some (clock 3 + S.agent_poll_interval_seconds * second);
              last_error_code = none;
              last_error_detail = none;
            });
            batch = record w.batch { state = AgentBatchState.queued };
          }))
      ∷ []

  submit_answered : Reply → Work C → List (Action C)
  unfolding after_submit
  submit_answered (answered f) w = after_submit (job_of f) f w
  submit_answered (http_status_error code words) w = after_submit (no_job words) end w
  submit_answered (http_error words) w = after_submit (no_job words) end w
  submit_answered (value_error words) w = after_submit (no_job words) end w

  -- The rows that are committed before the request is sent.
  unfoldable pub fenced : Work C → Work C
  fenced w = record w {
    dispatch = record w.dispatch {
      state = AgentDispatchState.submitting;
      attempt = w.dispatch.attempt + 1;
      next_attempt_at = none;
    };
    batch = record w.batch { state = AgentBatchState.submitting };
  }

  unfoldable pub submit : Work C → List (Action C)
  unfolding submit_answered fenced dead_letter
  submit w =
      if leb w.dispatch.max_attempts w.dispatch.attempt
      then die P B X worker_id clock "submission" "agent_submission_attempts_exhausted"
          "The dispatch exhausted its allowed submission attempts." w
      else committed (fenced w)
        ∷ posted w.dispatch.payload
        ∷ submit_answered (client.submit w.dispatch.payload) (fenced w)
