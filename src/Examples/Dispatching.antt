-- ===== src/Examples/Dispatching.antt =====
-- A queued dispatch that is claimed, submitted and then polled by a second worker.
use fireviewer_backend.Dispatch.Claim.{
  claim_next_dispatch, is_active, is_claimable, is_due, leased, purge_due_agent_media,
}
use fireviewer_backend.Dispatch.Claim.Lease.{claim-exclusive}
use fireviewer_backend.Dispatch.Claim.Purge.{IsPurged, purge-IsPurged}
use fireviewer_backend.Dispatch.Finish.{
  Services, WorkerOutput, accepted, output_succeeded, poll_delay, refused,
}
use fireviewer_backend.Dispatch.Finish.Backoff.{poll_delay-bounds}
use fireviewer_backend.Dispatch.Finish.Closing.{IsFree}
use fireviewer_backend.Dispatch.Handlers.{process_claimed_dispatch}
use fireviewer_backend.Dispatch.Poll.{status_of}
use fireviewer_backend.Dispatch.Rows.{
  Settings, Action, AgentBatchState, AgentDispatch, AgentDispatchState, AgentMediaItem, Work,
}
use fireviewer_backend.Dispatch.Runs.{claims, cut, durable_after, idle, posts, processes, purges}
use fireviewer_backend.Dispatch.Runs.AtMostOnce.{allowance, at_most_once}
use fireviewer_backend.Dispatch.Runs.Earned.{EarnedIn, succeeded-EarnedIn}
use fireviewer_backend.Dispatch.Runs.Released.{process-releases}
use fireviewer_backend.Dispatch.Runs.Terminal.{Follows, terminal_absorbs}
use fireviewer_backend.Dispatch.Submit.{job_of}
use fireviewer_backend.Dispatch.Transport.{RunPodTransport, answered, http_error}
use fireviewer_backend.Examples.Stubs.{plain_platform}
use fireviewer_backend.Platform.{Builtins, end, field, get_field, object, text}
use fireviewer_backend.Prelude.{
  All, List, [], arith, false, none, refl, select, some, sorted, true, ℕ, ◌+◌, ◌==◌, ◌∷◌, ◌≡◌, ◌≤◌,
}

abbrev waiting : AgentDispatch
waiting = record {
  id = 3;
  dispatch_id = "AD-3";
  state = AgentDispatchState.queued;
  payload = text "payload";
  payload_hash = "hash";
  attempt = 0;
  max_attempts = 3;
  poll_count = 0;
  remote_job_id = none;
  remote_status = none;
  lease_owner = none;
  lease_until = none;
  next_attempt_at = none;
  deadline_at = none;
  created_at = 0;
  submitted_at = none;
  last_polled_at = none;
  completed_at = none;
  execution_ms = none;
  delay_ms = none;
  raw_output = none;
  last_error_code = none;
  last_error_detail = none;
  letter = none;
}

abbrev work : Work ℕ
work = record {
  dispatch = waiting;
  batch = record {
    batch_id = "AB-1";
    state = AgentBatchState.queued;
    trace_id = "trace-1";
    analysis_window_id = none;
    completed_at = none;
    cancelled_at = none;
    review_task = none;
  };
  items = [];
  ledger = record { audits = []; outbox = []; idempotency = []; drawn = 0 };
  elsewhere = 0;
}

abbrev retired : Work ℕ
retired = record work { dispatch = record waiting { state = AgentDispatchState.succeeded } }

abbrev settings : Settings
settings = record {
  agent_poll_interval_seconds = 5;
  agent_dispatch_lease_seconds = 90;
  agent_dispatch_stall_seconds = 900;
}

abbrev plain_builtins : Builtins
plain_builtins = record {
  str = λ v. "value";
  upper = λ s. s;
  casefold = λ s. s;
  first = λ n s. s;
  real_is_zero = λ x. x == 0;
  real_to_int = λ x. some x;
}

abbrev plain_services : Services ℕ
plain_services = record {
  refresh_campaign_day_review_state = λ window d b c. c + 1;
  validate_worker_output = λ d b items raw. refused "no output";
  persist_output = λ d b o c. accepted (c + 1);
  new_prefixed_id = λ prefix n. prefix;
}

abbrev remote : RunPodTransport
remote = record {
  submit = λ payload. answered (field "id" (text "job-9") end);
  status = λ id. answered (field "status" (text "IN_PROGRESS") end);
  cancel = λ id. http_error "timeout";
}

abbrev leased_work : Work ℕ
leased_work = record work { dispatch = leased settings "worker-1" 0 waiting }

abbrev trace : List (Action ℕ)
trace = cut 9 (
    process_claimed_dispatch plain_platform plain_builtins plain_services "worker-1" settings remote
      (λ k. k) leased_work)

waiting_due : is_due settings is_claimable 0 waiting ≡ true
unfolding is_due
waiting_due = refl

submitted : posts trace + 0 ≡ 1
unfolding process_claimed_dispatch posts cut plain_platform job_of get_field
submitted = refl

fence_example : posts trace + 0 ≤ allowance work
fence_example = at_most_once plain_platform plain_builtins plain_services settings (
    claims work "worker-1" is_claimable 0 (λ s h. h) waiting_due
      (processes leased_work "worker-1" remote (λ k. k) 9 (idle (durable_after leased_work trace))))

absorb_example : Follows retired (purge_due_agent_media 100 5 [] retired)
absorb_example =
    terminal_absorbs plain_platform plain_builtins plain_services settings
      (purges retired 100 5 [] (idle (purge_due_agent_media 100 5 [] retired))) (λ h. refl)

claimed : (claim_next_dispatch true settings "worker-1" is_claimable 0 (waiting ∷ [])).0 ≡ some 3
unfolding claim_next_dispatch sorted select
claimed = refl

exclusive_example :
    All
      (λ (d : AgentDispatch). d.id ≡ 3 → is_due settings is_active 80000000 d ≡ false)
      (claim_next_dispatch true settings "worker-1" is_claimable 0 (waiting ∷ [])).1
exclusive_example =
    claim-exclusive true settings "worker-1" is_claimable 0 (waiting ∷ []) claimed settings
      is_active 80000000 (ground arith)

backoff_example :
    (5 ≤ poll_delay plain_platform plain_builtins plain_services "worker-1" settings 4)
    × (poll_delay plain_platform plain_builtins plain_services "worker-1" settings 4 ≤ 300)
    × (poll_delay plain_platform plain_builtins plain_services "worker-1" settings 4
        ≤ poll_delay plain_platform plain_builtins plain_services "worker-1" settings 5)
backoff_example =
    poll_delay-bounds plain_platform plain_builtins plain_services "worker-1" settings 4
      (ground arith)

abbrev old_item : AgentMediaItem
old_item = record {
  id = 1;
  input_id = "IN-1";
  working_file_url = some "https://media/1";
  metadata_payload = object [];
  processable_payload = object [];
  preprocessing_status = "validated";
  purge_after = 4;
  purged_at = none;
}

abbrev older_item : AgentMediaItem
older_item = record old_item { id = 2; purge_after = 3 }

-- One item at a time: the item of the batch comes after one of another batch.
purge_example :
    IsPurged 1 5
      (older_item ∷ [])
      (record work { items = old_item ∷ [] })
      (purge_due_agent_media 1 5 (older_item ∷ []) (record work { items = old_item ∷ [] }))
purge_example = purge-IsPurged 1 5 (older_item ∷ []) (record work { items = old_item ∷ [] })

-- A remote job that completes with an output that the validation accepts.
abbrev done_output : WorkerOutput
done_output = record {
  status = output_succeeded;
  has_validation_errors = false;
  dumped = text "output";
}

abbrev accepting_services : Services ℕ
accepting_services = record plain_services {
  validate_worker_output = λ d b items raw. accepted done_output;
}

abbrev finished_remote : RunPodTransport
finished_remote = record remote { status = λ id. answered (field "status" (text "COMPLETED") end) }

abbrev running_work : Work ℕ
running_work = record work {
  dispatch = record waiting {
    state = AgentDispatchState.poll_wait;
    remote_job_id = some "job-9";
    lease_owner = some "worker-1";
  };
}

abbrev finished : Work ℕ
finished = durable_after running_work (
    cut 9 (
      process_claimed_dispatch plain_platform plain_builtins accepting_services "worker-1" settings
        finished_remote (λ k. k) running_work))

finished_state : finished.dispatch.state ≡ AgentDispatchState.succeeded
unfolding process_claimed_dispatch durable_after cut plain_platform status_of get_field
finished_state = refl

success_example :
    EarnedIn plain_platform plain_builtins accepting_services settings
      (processes running_work "worker-1" finished_remote (λ k. k) 9 (idle finished))
success_example =
    succeeded-EarnedIn plain_platform plain_builtins accepting_services settings
      (processes running_work "worker-1" finished_remote (λ k. k) 9 (idle finished)) (λ e. cc)
      finished_state

abbrev finished_run : List (Action ℕ)
finished_run =
    process_claimed_dispatch plain_platform plain_builtins accepting_services "worker-1" settings
      finished_remote (λ k. k) running_work

released_example : IsFree (durable_after running_work finished_run).dispatch
released_example =
    process-releases plain_platform plain_builtins accepting_services "worker-1" settings
      finished_remote (λ k. k) running_work refl (λ id words e. cc)
