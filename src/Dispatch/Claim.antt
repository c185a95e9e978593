-- ===== src/Dispatch/Claim.antt =====
-- Leasing a due dispatch, `claim_next_dispatch`, and `purge_due_agent_media`.
-- `CLAIMABLE_STATES`
pub mod Lease
pub mod Purge
use fireviewer_backend.Dispatch.Poll.{polled}
use fireviewer_backend.Dispatch.Rows.{
  Settings, AgentBatchState, AgentDispatch, AgentDispatchState, AgentMediaItem, Work, second,
}
use fireviewer_backend.Platform.{Value, array, bool, nil, null, object, text}
use fireviewer_backend.Prelude.{
  Bool, List, Option, String, [], any, false, if◌then◌else◌, is_some, leb, none, not, select, some,
  sorted, take_first, true, update, ℕ, ◌&&◌, ◌*◌, ◌++◌, ◌+◌, ◌==◌, ◌||◌, ◌∷◌,
}

abbrev pub is_claimable : AgentDispatchState → Bool
is_claimable AgentDispatchState.queued = true
is_claimable AgentDispatchState.submitting = true
is_claimable AgentDispatchState.awaiting_remote = true
is_claimable AgentDispatchState.poll_wait = true
is_claimable AgentDispatchState.cancel_requested = true
is_claimable _ = false

-- `ACTIVE_DISPATCH_STATES`
abbrev pub is_active : AgentDispatchState → Bool
is_active AgentDispatchState.submitting = true
is_active AgentDispatchState.awaiting_remote = true
is_active AgentDispatchState.poll_wait = true
is_active AgentDispatchState.cancel_requested = true
is_active _ = false

-- The terminal states of the purge.
abbrev pub is_terminal : AgentDispatchState → Bool
is_terminal AgentDispatchState.succeeded = true
is_terminal AgentDispatchState.partial_failure = true
is_terminal AgentDispatchState.failed = true
is_terminal AgentDispatchState.dead_letter = true
is_terminal AgentDispatchState.cancelled = true
is_terminal _ = false

-- `func.coalesce(last_polled_at, submitted_at, created_at)`
abbrev last_seen : Option ℕ → Option ℕ → ℕ → ℕ
last_seen (some polled) submitted created = polled
last_seen none (some submitted) created = submitted
last_seen none none created = created

-- `column IS NULL OR column <= now`
abbrev pub null_or_past : Option ℕ → ℕ → Bool
null_or_past none now = true
null_or_past (some t) now = leb t now

unfoldable pub stale_active_remote : Settings → ℕ → AgentDispatch → Bool
stale_active_remote S now d =
    is_active d.state
    && is_some d.remote_job_id
    && leb
        (last_seen d.last_polled_at d.submitted_at d.created_at
          + S.agent_dispatch_stall_seconds * second)
        now

-- The WHERE clause of the claim; `states` is the test on the state that the caller asks for.
unfoldable pub is_due : Settings → (AgentDispatchState → Bool) → ℕ → AgentDispatch → Bool
unfolding stale_active_remote
is_due S states now d =
    states d.state
    && (null_or_past d.next_attempt_at now || stale_active_remote S now d)
    && null_or_past d.lease_until now

-- `ORDER BY next_attempt_at, id`: the two databases place NULL differently.
unfoldable pub next_first : Bool → AgentDispatch → AgentDispatch → Bool
next_first nulls_first a b = elim a.next_attempt_at [
  | none ↦ elim b.next_attempt_at [ none ↦ leb a.id b.id | some t ↦ nulls_first ]
  | some s ↦ elim b.next_attempt_at [
    | none ↦ not nulls_first
    | some t ↦ if s == t then leb a.id b.id else leb s t
  ]
]

abbrev pub leased : Settings → String → ℕ → AgentDispatch → AgentDispatch
leased S worker_id now d = record d {
  lease_owner = some worker_id;
  lease_until = some (now + S.agent_dispatch_lease_seconds * second);
}

abbrev first_id : List AgentDispatch → Option ℕ
first_id [] = none
first_id (d ∷ ds) = some d.id

abbrev write_lease : Settings → String → ℕ → Option ℕ → List AgentDispatch → List AgentDispatch
write_lease S worker_id now none table = table
write_lease S worker_id now (some id) table =
    update (λ (d : AgentDispatch). d.id == id) (leased S worker_id now) table

-- The claimed id, and the table after the commit.
unfoldable pub claim_next_dispatch :
    Bool
    → Settings
    → String
    → (AgentDispatchState → Bool)
    → ℕ
    → List AgentDispatch
    → Option ℕ × List AgentDispatch
unfolding is_due next_first
claim_next_dispatch nulls_first S worker_id states now table =
    let due_id = first_id (sorted (next_first nulls_first) (select (is_due S states now) table)) in
    (due_id, write_lease S worker_id now due_id table)

-- The WHERE clause and the ORDER BY of `purge_due_agent_media`.
abbrev pub is_purge_due : ℕ → AgentMediaItem → Bool
is_purge_due now i = not (is_some i.purged_at) && leb i.purge_after now

abbrev pub due_first : AgentMediaItem → AgentMediaItem → Bool
due_first a b =
    if a.purge_after == b.purge_after then leb a.id b.id else leb a.purge_after b.purge_after

-- The items that one call takes from the table.
unfoldable pub due_items : ℕ → ℕ → List AgentMediaItem → List AgentMediaItem
due_items limit now table = take_first limit (sorted due_first (select (is_purge_due now) table))

abbrev pub is_listed : List AgentMediaItem → AgentMediaItem → Bool
is_listed items i = any (λ (row : AgentMediaItem). row.id == i.id) items

abbrev pub purged_item : ℕ → AgentMediaItem → AgentMediaItem
purged_item now i = record i {
  working_file_url = none;
  metadata_payload = object [];
  processable_payload =
      object (("frames", array nil) ∷ ("audio_url", null) ∷ ("article_text", null) ∷ []);
  preprocessing_status = "purged";
  purged_at = some now;
}

abbrev redacted : String → Value
redacted batch_id =
    object
      (("schema_version", text "1.0") ∷ ("batch_id", text batch_id) ∷ ("redacted", bool true) ∷ [])

-- The rows of a dispatch whose batch has purged items, in a terminal state and in another.
abbrev pub redacted_rows : {C : Type 0} → (AgentMediaItem → Bool) → ℕ → Work C → Work C
redacted_rows chosen now w = record w {
  dispatch = record w.dispatch { payload = redacted w.batch.batch_id; raw_output = none };
  items = update chosen (purged_item now) w.items;
}

abbrev pub cancelling_rows : {C : Type 0} → (AgentMediaItem → Bool) → ℕ → Work C → Work C
cancelling_rows chosen now w = record w {
  dispatch = record w.dispatch {
    payload = redacted w.batch.batch_id;
    raw_output = none;
    state = AgentDispatchState.cancel_requested;
    next_attempt_at = some now;
    lease_owner = none;
    lease_until = none;
  };
  batch = record w.batch { state = AgentBatchState.cancel_requested };
  items = update chosen (purged_item now) w.items;
}

unfoldable pub redacted_work : {C : Type 0} → (AgentMediaItem → Bool) → ℕ → Work C → Work C
redacted_work chosen now w =
    if is_terminal w.dispatch.state
    then redacted_rows chosen now w
    else cancelling_rows chosen now w

-- The loops over the items and over the dispatches, on one dispatch with its batch.
unfoldable pub purge_chosen : {C : Type 0} → (AgentMediaItem → Bool) → ℕ → Work C → Work C
unfolding redacted_work
purge_chosen chosen now w = if any chosen w.items then redacted_work chosen now w else w

-- What a call does to the rows of one dispatch; `others` are the items of the other batches.
unfoldable pub purge_due_agent_media : {C : Type 0} → ℕ → ℕ → List AgentMediaItem → Work C → Work C
unfolding purge_chosen due_items
purge_due_agent_media limit now others w =
    purge_chosen (is_listed (due_items limit now (others ++ w.items))) now w
