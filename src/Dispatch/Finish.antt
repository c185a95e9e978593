-- ===== src/Dispatch/Finish.antt =====
-- How a run ends: `_release_lease`, `_dead_letter` and `_schedule_poll_retry`.
pub mod Backoff
pub mod Closing
use fireviewer_backend.Actor.{Actor}
use fireviewer_backend.Dispatch.Rows.{
  Action, AgentBatchState, AgentDeadLetter, AgentDispatch, AgentDispatchState, AgentMediaBatch,
  AgentMediaItem, Settings, Work, committed, dispatch_state_value, second,
}
use fireviewer_backend.Enums.{ActorType}
use fireviewer_backend.Ledger.{Audit, record_operator_audit}
use fireviewer_backend.Platform.{Builtins, Platform, Value, object, optional, text}
use fireviewer_backend.Prelude.{
  Bool, List, Option, String, [], if◌then◌else◌, min, none, refl, some, str_eq, ℕ, ◌*◌, ◌+◌, ◌^◌,
  ◌∷◌, ◌≡◌,
}

unfoldable pub release_lease : AgentDispatch → AgentDispatch
release_lease d = record d { lease_owner = none; lease_until = none }

abbrev pub system_actor : String → Actor
system_actor worker_id = record {
  actor_id = worker_id;
  roles = [];
  actor_type = ActorType.system;
  csrf_token = none;
}

-- `refresh_campaign_day_review_state` and the strict validation and persistence of a worker's output
-- are services of their own.
pub data OutputStatus : Type 0 where
  output_succeeded : OutputStatus
  output_partial_failure : OutputStatus
  output_failed : OutputStatus

pub record WorkerOutput : Type 0 where
  pub status : OutputStatus
  pub has_validation_errors : Bool
  pub dumped : Value

pub data Checked (A : Type 0) : Type 0 where
  accepted : A → Checked A
  refused : String → Checked A

pub record Services (C : Type 0) : Type 0 where
  pub refresh_campaign_day_review_state : ℕ → AgentDispatch → AgentMediaBatch → C → C
  pub validate_worker_output :
      AgentDispatch → AgentMediaBatch → List AgentMediaItem → Option Value → Checked WorkerOutput
  pub persist_output : AgentDispatch → AgentMediaBatch → WorkerOutput → C → Checked C
  pub new_prefixed_id : String → ℕ → String

abbrev string_or_null : Option String → Value
string_or_null o = optional text o

module _ {C : Type 0} (P : Platform) (B : Builtins) (X : Services C) (worker_id : String) where
  -- `if dispatch.batch.analysis_window_id is not None: refresh_campaign_day_review_state(...)`
  refresh_window : Option ℕ → Work C → Work C
  refresh_window none w = w
  refresh_window (some window) w = record w {
    elsewhere = X.refresh_campaign_day_review_state window w.dispatch w.batch w.elsewhere;
  }

  unfoldable pub refresh : Work C → Work C
  unfolding refresh_window
  refresh w = refresh_window w.batch.analysis_window_id w

  refresh_window-dispatch :
      (window : Option ℕ) (w : Work C) → (refresh_window window w).dispatch ≡ w.dispatch
  unfolding refresh_window
  refresh_window-dispatch none w = refl
  refresh_window-dispatch (some n) w = refl

  pub refresh-dispatch : (w : Work C) → (refresh w).dispatch ≡ w.dispatch
  unfolding refresh
  refresh-dispatch w = refresh_window-dispatch w.batch.analysis_window_id w

  unfoldable pub audit : Audit → Work C → Work C
  audit a w = record w { ledger = record_operator_audit P (system_actor worker_id) a w.ledger }

  safe_detail : String → String
  safe_detail detail =
      let short = B.first 1000 detail in
      if str_eq short "" then "Unspecified dispatcher failure" else short

  -- `if dispatch.dead_letter is None: dispatch.dead_letter = AgentDeadLetter(...)`
  letter_of : Option AgentDeadLetter → AgentDeadLetter → Option AgentDeadLetter
  letter_of none new = some new
  letter_of (some old) new = some old

  -- The rows and the journal before the refresh.
  unfoldable pub dead_row : String → String → String → ℕ → Work C → Work C
  unfolding safe_detail letter_of release_lease
  dead_row failure_class error_code detail now w =
      let d = w.dispatch in
      record w {
        dispatch = release_lease (record d {
          state = AgentDispatchState.dead_letter;
          completed_at = some now;
          last_error_code = some (B.first 128 error_code);
          last_error_detail = some (safe_detail detail);
          next_attempt_at = none;
          letter = letter_of d.letter (record {
            dead_letter_id = X.new_prefixed_id "DLQ" w.ledger.drawn;
            failure_class = B.first 64 failure_class;
            error_code = B.first 128 error_code;
            error_detail = safe_detail detail;
            payload_hash = d.payload_hash;
            remote_job_id = d.remote_job_id;
            failed_at = now;
          });
        });
        batch = record w.batch { state = AgentBatchState.dead_letter; completed_at = some now };
      }

  unfoldable pub dead_letter : String → String → String → ℕ → Work C → List (Action C)
  unfolding dead_row refresh audit safe_detail
  dead_letter failure_class error_code detail now w =
      committed (
        refresh (
          audit
            (record {
              action = "agent.dispatch_dead_lettered";
              target_type = "agent_dispatch";
              target_id = w.dispatch.dispatch_id;
              reason = safe_detail detail;
              trace_id = w.batch.trace_id;
              before = none;
              after = some (
                  object (
                    ("state", text (dispatch_state_value AgentDispatchState.dead_letter))
                    ∷ ("error_code", text (B.first 128 error_code))
                    ∷ ("remote_job_id", string_or_null w.dispatch.remote_job_id)
                    ∷ []));
              payload = object [];
            })
            (dead_row failure_class error_code detail now w)))
      ∷ []

  -- `clock 4` is the reading in `_dead_letter`.
  abbrev pub die : (ℕ → ℕ) → String → String → String → Work C → List (Action C)
  die clock failure_class error_code detail w =
      dead_letter failure_class error_code detail (clock 4) w

  -- `min(300, interval * 2 ** min(poll_count, 6))`
  unfoldable pub poll_delay : Settings → ℕ → ℕ
  poll_delay S poll_count = min 300 (S.agent_poll_interval_seconds * 2 ^ min poll_count 6)

  unfoldable pub retry_row : Settings → String → String → ℕ → Work C → Work C
  unfolding poll_delay release_lease
  retry_row S error_code detail now w = record w {
    dispatch = release_lease (record w.dispatch {
      state = AgentDispatchState.poll_wait;
      next_attempt_at = some (now + poll_delay S w.dispatch.poll_count * second);
      last_error_code = some error_code;
      last_error_detail = some (B.first 1000 detail);
    });
  }

  unfoldable pub schedule_poll_retry : Settings → String → String → ℕ → Work C → List (Action C)
  unfolding retry_row
  schedule_poll_retry S error_code detail now w =
      committed (retry_row S error_code detail now w) ∷ []

  -- The end that `_cancel` and `_poll` give to a cancelled dispatch.
  unfoldable pub cancelled_row : ℕ → Option String → Work C → List (Action C)
  unfolding release_lease refresh
  cancelled_row now remote_status w =
      committed (
        refresh (record w {
          dispatch = release_lease (record w.dispatch {
            state = AgentDispatchState.cancelled;
            remote_status = remote_status;
            completed_at = some now;
            next_attempt_at = none;
          });
          batch = record w.batch {
            state = AgentBatchState.cancelled;
            completed_at = some now;
            cancelled_at = some now;
          };
        }))
      ∷ []
