-- ===== src/Dispatch/Rows.antt =====
-- The rows of the dispatcher: AgentMediaBatch, AgentMediaItem, AgentDispatch and AgentDeadLetter of
-- db/models.py, and their states in domain/enums.py. Columns that neither the dispatcher nor the
-- functions that it calls write are left out.
use fireviewer_backend.Ledger.{Ledger}
use fireviewer_backend.Platform.{Value}
use fireviewer_backend.Prelude.{List, Option, String, ℕ}

pub data AgentDispatchState : Type 0 where
  queued : AgentDispatchState
  submitting : AgentDispatchState
  awaiting_remote : AgentDispatchState
  poll_wait : AgentDispatchState
  succeeded : AgentDispatchState
  partial_failure : AgentDispatchState
  failed : AgentDispatchState
  dead_letter : AgentDispatchState
  cancel_requested : AgentDispatchState
  cancelled : AgentDispatchState

pub data AgentBatchState : Type 0 where
  draft : AgentBatchState
  queued : AgentBatchState
  submitting : AgentBatchState
  running : AgentBatchState
  succeeded : AgentBatchState
  partial_failure : AgentBatchState
  failed : AgentBatchState
  dead_letter : AgentBatchState
  cancel_requested : AgentBatchState
  cancelled : AgentBatchState

unfoldable pub dispatch_state_value : AgentDispatchState → String
dispatch_state_value AgentDispatchState.queued = "QUEUED"
dispatch_state_value AgentDispatchState.submitting = "SUBMITTING"
dispatch_state_value AgentDispatchState.awaiting_remote = "AWAITING_REMOTE"
dispatch_state_value AgentDispatchState.poll_wait = "POLL_WAIT"
dispatch_state_value AgentDispatchState.succeeded = "SUCCEEDED"
dispatch_state_value AgentDispatchState.partial_failure = "PARTIAL_FAILURE"
dispatch_state_value AgentDispatchState.failed = "FAILED"
dispatch_state_value AgentDispatchState.dead_letter = "DEAD_LETTER"
dispatch_state_value AgentDispatchState.cancel_requested = "CANCEL_REQUESTED"
dispatch_state_value AgentDispatchState.cancelled = "CANCELLED"

-- A new dead letter is open.
pub record AgentDeadLetter : Type 0 where
  pub dead_letter_id : String
  pub failure_class : String
  pub error_code : String
  pub error_detail : String
  pub payload_hash : String
  pub remote_job_id : Option String
  pub failed_at : ℕ

pub record AgentDispatch : Type 0 where
  pub id : ℕ
  pub dispatch_id : String
  pub state : AgentDispatchState
  pub payload : Value
  pub payload_hash : String
  pub attempt : ℕ
  pub max_attempts : ℕ
  pub poll_count : ℕ
  pub remote_job_id : Option String
  pub remote_status : Option String
  pub lease_owner : Option String
  pub lease_until : Option ℕ
  pub next_attempt_at : Option ℕ
  pub deadline_at : Option ℕ
  pub created_at : ℕ
  pub submitted_at : Option ℕ
  pub last_polled_at : Option ℕ
  pub completed_at : Option ℕ
  pub execution_ms : Option ℕ
  pub delay_ms : Option ℕ
  pub raw_output : Option Value
  pub last_error_code : Option String
  pub last_error_detail : Option String
  pub letter : Option AgentDeadLetter

pub record AgentReviewTask : Type 0 where
  pub review_id : String
  pub reason_codes : List String

pub record AgentMediaBatch : Type 0 where
  pub batch_id : String
  pub state : AgentBatchState
  pub trace_id : String
  pub analysis_window_id : Option ℕ
  pub completed_at : Option ℕ
  pub cancelled_at : Option ℕ
  pub review_task : Option AgentReviewTask

pub record AgentMediaItem : Type 0 where
  pub id : ℕ
  pub input_id : String
  pub working_file_url : Option String
  pub metadata_payload : Value
  pub processable_payload : Value
  pub preprocessing_status : String
  pub purge_after : ℕ
  pub purged_at : Option ℕ

-- The rows of one dispatch with its batch and the batch's items, the journal, and the tables `C` that
-- the dispatcher reaches only through other services.
pub record Work (C : Type 0) : Type 0 where
  pub dispatch : AgentDispatch
  pub batch : AgentMediaBatch
  pub items : List AgentMediaItem
  pub ledger : Ledger
  pub elsewhere : C

-- What a run of the dispatcher does in order: commits, with the rows that it makes durable, requests
-- to the remote side, and an exception that ends the run.
pub data Action (C : Type 0) : Type 0 where
  committed : Work C → Action C
  posted : Value → Action C
  asked_status : String → Action C
  asked_cancel : String → Action C
  escaped : String → Action C

-- The fields of core/config.py that the dispatcher reads, in seconds.
pub record Settings : Type 0 where
  pub agent_poll_interval_seconds : ℕ
  pub agent_dispatch_lease_seconds : ℕ
  pub agent_dispatch_stall_seconds : ℕ

abbrev pub second : ℕ
second = 1000000
