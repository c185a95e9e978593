-- ===== src/Dispatch/Complete.antt =====
-- The end of a completed job: `_complete` and `_optional_nonnegative_int`.
pub mod Closing
-- `_optional_nonnegative_int`
use fireviewer_backend.Dispatch.Finish.{
  Checked, OutputStatus, Services, WorkerOutput, accepted, audit, dead_letter, die, output_failed,
  output_partial_failure, output_succeeded, refresh, refused, release_lease,
}
use fireviewer_backend.Dispatch.Rows.{
  Action, AgentBatchState, AgentDispatchState, AgentReviewTask, Settings, Work, committed,
  dispatch_state_value,
}
use fireviewer_backend.Dispatch.Transport.{RunPodTransport}
use fireviewer_backend.Platform.{
  Builtins, Fields, Platform, Value, bool, dict, get_field, null, num, object, optional, real, text,
}
use fireviewer_backend.Prelude.{
  List, Option, String, [], if◌then◌else◌, none, some, str_append, true, ℕ, ◌++◌, ◌∷◌,
}

unfoldable pub optional_nonnegative_int : Builtins → Option Value → Checked (Option ℕ)
optional_nonnegative_int B none = accepted none
optional_nonnegative_int B (some null) = accepted none
optional_nonnegative_int B (some (num n)) = accepted (some n)
optional_nonnegative_int B (some (real x)) = elim (B.real_to_int x) [
  | some n ↦ accepted (some n)
  | none ↦ refused "RunPod timing metric must be a non-negative number"
]
optional_nonnegative_int B (some _) = refused "RunPod timing metric must be a non-negative number"

-- `raw_output if isinstance(raw_output, dict) else None`
abbrev only_dict : Option Value → Option Value
only_dict (some (dict f)) = some (dict f)
only_dict _ = none

abbrev reason_codes : WorkerOutput → List String
reason_codes o =
    "agent_output_requires_human_review"
      ∷ (elim o.status [ output_partial_failure ↦ "agent_partial_failure" ∷ [] | _ ↦ [] ])
    ++ (if o.has_validation_errors then "worker_validation_errors" ∷ [] else [])

module _ {C : Type 0} (P : Platform) (B : Builtins) (X : Services C) (worker_id : String)
    (S : Settings) (client : RunPodTransport) (clock : ℕ → ℕ) where
  -- `_complete`, from the validated output on.
  done_row : AgentDispatchState → AgentBatchState → Work C → List (Action C)
  unfolding release_lease refresh audit
  done_row dispatch_state batch_state w =
      committed (
        audit P B X worker_id
          (record {
            action = "agent.dispatch_completed";
            target_type = "agent_dispatch";
            target_id = w.dispatch.dispatch_id;
            reason = "Strict worker output persisted for mandatory human review.";
            trace_id = w.batch.trace_id;
            before = none;
            after = some (
                object (
                  ("state", text (dispatch_state_value dispatch_state))
                  ∷ ("remote_job_id", optional text w.dispatch.remote_job_id)
                  ∷ ("review_required", bool true)
                  ∷ []));
            payload = object [];
          })
          (refresh P B X worker_id (record w {
            dispatch = release_lease (record w.dispatch {
              state = dispatch_state;
              completed_at = some (clock 3);
              next_attempt_at = none;
              last_error_code = none;
              last_error_detail = none;
            });
            batch = record w.batch { state = batch_state; completed_at = some (clock 3) };
          })))
      ∷ []

  abbrev stored : C → Work C → Work C
  stored tables w = record w { elsewhere = tables }

  -- `begin_nested`: the tables stay as they were if the persistence fails.
  persisted : Checked C → OutputStatus → Work C → List (Action C)
  unfolding done_row dead_letter
  persisted (refused words) status w =
      die P B X worker_id clock "invalid_output" "agent_worker_output_persistence_invalid"
        (str_append "Worker output could not be persisted safely: " words) w
  persisted (accepted tables) output_succeeded w =
      done_row AgentDispatchState.succeeded AgentBatchState.succeeded (stored tables w)
  persisted (accepted tables) _ w =
      done_row AgentDispatchState.partial_failure AgentBatchState.partial_failure (stored tables w)

  review_of : Option AgentReviewTask → WorkerOutput → ℕ → Option AgentReviewTask
  review_of (some task) o drawn = some task
  review_of none o drawn =
      some (record { review_id = X.new_prefixed_id "AR" drawn; reason_codes = reason_codes o })

  kept_row : WorkerOutput → Option ℕ → Option ℕ → Work C → Work C
  unfolding review_of
  kept_row o execution_ms delay_ms w = record w {
    dispatch = record w.dispatch {
      raw_output = some o.dumped;
      execution_ms = execution_ms;
      delay_ms = delay_ms;
      remote_status = some "COMPLETED";
    };
    batch = record w.batch { review_task = review_of w.batch.review_task o w.ledger.drawn };
  }

  finish_output : OutputStatus → WorkerOutput → Work C → List (Action C)
  unfolding persisted dead_letter
  finish_output output_failed o w =
      die P B X worker_id clock "worker_failure" "agent_worker_reported_failure"
        "The worker completed the request but reported a failed batch." w
  finish_output status o w = persisted (X.persist_output w.dispatch w.batch o w.elsewhere) status w

  complete_output : WorkerOutput → Option ℕ → Option ℕ → Work C → List (Action C)
  unfolding finish_output kept_row
  complete_output o execution_ms delay_ms w =
      let kept = kept_row o execution_ms delay_ms w in finish_output o.status o kept

  abbrev with_raw : Option Value → Work C → Work C
  with_raw raw w = record w { dispatch = record w.dispatch { raw_output = only_dict raw } }

  invalid_output : Option Value → String → Work C → List (Action C)
  unfolding dead_letter
  invalid_output raw words w =
      die P B X worker_id clock "invalid_output" "agent_worker_output_invalid"
        (str_append "Worker output failed strict validation: " words) (with_raw raw w)

  complete_timed :
      Option Value
      → Checked WorkerOutput
      → Checked (Option ℕ)
      → Checked (Option ℕ)
      → Work C
      → List (Action C)
  unfolding complete_output invalid_output
  complete_timed raw (refused words) execution delay w = invalid_output raw words w
  complete_timed raw (accepted o) (refused words) delay w = invalid_output raw words w
  complete_timed raw (accepted o) (accepted e) (refused words) w = invalid_output raw words w
  complete_timed raw (accepted o) (accepted e) (accepted d) w = complete_output o e d w

  unfoldable pub complete : Fields → Work C → List (Action C)
  unfolding complete_timed optional_nonnegative_int
  complete f w =
      let raw = get_field "output" f in
      complete_timed raw (X.validate_worker_output w.dispatch w.batch w.items raw)
        (optional_nonnegative_int B (get_field "executionTime" f))
        (optional_nonnegative_int B (get_field "delayTime" f)) w
