-- ===== src/Ledger.antt =====
-- The tables that every mutation writes beside its own rows: the audit journal and the outbox
-- (services/common.py), and the idempotency records (services/idempotency.py).
-- Times are instants in microseconds. The newest row stands first.
use mathlib.Core.Option
use fireviewer_backend.Actor.{Actor}
use fireviewer_backend.Enums.{ActorType}
use fireviewer_backend.Errors.{conflict}
use fireviewer_backend.Platform.{Platform, Value, json_safe, sha256_hex}
use fireviewer_backend.Prelude.{
  All, All-imp, Bool, Bool-cases, List, Option, String, arith, if◌then◌else◌, inl, inr, leb, none,
  not, refl, select, some, str_eq, subst, sym, true, ℕ, ◌&&◌, ◌*◌, ◌+◌, ◌∷◌, ◌≡◌, ◌≤◌, ◌⊎◌,
}
use fireviewer_backend.Session.{Result, err, ok, one_or_none, scalar_one_or_none, scalar_one_unique}

pub record AuditEvent : Type 0 where
  pub event_id : String
  pub actor_type : ActorType
  pub actor_id : String
  pub action : String
  pub target_type : String
  pub target_id : String
  pub before_hash : Option String
  pub after_hash : Option String
  pub before_snapshot : Option Value
  pub after_snapshot : Option Value
  pub reason : String
  pub trace_id : String
  pub payload : Value

pub record OutboxEvent : Type 0 where
  pub event_id : String
  pub topic : String
  pub aggregate_type : String
  pub aggregate_id : String
  pub trace_id : String
  pub idempotency_key : String
  pub payload : Value

pub record IdempotencyRecord : Type 0 where
  pub endpoint : String
  pub idempotency_key : String
  pub request_hash : String
  pub response_status : ℕ
  pub response_body : Value
  pub trace_id : String
  pub expires_at : ℕ

-- `drawn` counts the identifiers that were drawn.
pub record Ledger : Type 0 where
  pub audits : List AuditEvent
  pub outbox : List OutboxEvent
  pub idempotency : List IdempotencyRecord
  pub drawn : ℕ

-- The arguments of `record_audit`. `payload or {}` is the empty dictionary for `None`.
pub record Audit : Type 0 where
  pub action : String
  pub target_type : String
  pub target_id : String
  pub reason : String
  pub trace_id : String
  pub before : Option Value
  pub after : Option Value
  pub payload : Value

module _ (P : Platform) where
  -- The row that `record_audit` adds; `n` identifiers were drawn before.
  unfoldable pub audit_event : ActorType → String → Audit → ℕ → AuditEvent
  audit_event actor_type actor_id a n = record {
    event_id = P.new_event_id n;
    actor_type = actor_type;
    actor_id = actor_id;
    action = a.action;
    target_type = a.target_type;
    target_id = a.target_id;
    before_hash = Option.map (sha256_hex P) a.before;
    after_hash = Option.map (sha256_hex P) a.after;
    before_snapshot = Option.map (json_safe P) a.before;
    after_snapshot = Option.map (json_safe P) a.after;
    reason = a.reason;
    trace_id = a.trace_id;
    payload = a.payload;
  }

  unfoldable pub record_audit : ActorType → String → Audit → Ledger → Ledger
  record_audit actor_type actor_id a l = record l {
    audits = audit_event actor_type actor_id a l.drawn ∷ l.audits;
    drawn = l.drawn + 1;
  }

  unfoldable pub record_operator_audit : Actor → Audit → Ledger → Ledger
  unfolding record_audit
  record_operator_audit actor a l = record_audit actor.actor_type actor.actor_id a l

  unfoldable pub emit_outbox : String → String → String → String → String → Value → Ledger → Ledger
  emit_outbox topic aggregate_type aggregate_id trace_id idempotency_key payload l = record l {
    outbox =
        record {
          event_id = P.new_event_id l.drawn;
          topic = topic;
          aggregate_type = aggregate_type;
          aggregate_id = aggregate_id;
          trace_id = trace_id;
          idempotency_key = idempotency_key;
          payload = payload;
        }
        ∷ l.outbox;
    drawn = l.drawn + 1;
  }

pub record Replay : Type 0 where
  pub response_status : ℕ
  pub response_body : Value
  pub trace_id : String

abbrev pub has_key : String → String → IdempotencyRecord → Bool
has_key endpoint key r = str_eq r.endpoint endpoint && str_eq r.idempotency_key key

-- `session.delete(record)`: the row with that endpoint and key goes.
abbrev pub delete_key : String → String → Ledger → Ledger
delete_key endpoint key l = record l {
  idempotency = select (λ r. not (has_key endpoint key r)) l.idempotency;
}

-- The result carries the replay, if there is one, and the ledger without an expired record.
judge_record :
    String
    → String
    → String
    → ℕ
    → Option IdempotencyRecord
    → Ledger
    → Result (Option Replay × Ledger)
judge_record endpoint key request_hash now none l = ok (none, l)
judge_record endpoint key request_hash now (some r) l =
    if leb r.expires_at now
    then ok (none, delete_key endpoint key l)
    else if not (str_eq r.request_hash request_hash)
    then err (
        conflict "idempotency_key_reused"
          "The Idempotency-Key was already used with a different request body.")
    else ok (
      some (record {
        response_status = r.response_status;
        response_body = r.response_body;
        trace_id = r.trace_id;
      }),
      l,
    )

judge_rows :
    String
    → String
    → String
    → ℕ
    → Result (Option IdempotencyRecord)
    → Ledger
    → Result (Option Replay × Ledger)
judge_rows endpoint key request_hash now (ok found) l =
    judge_record endpoint key request_hash now found l
judge_rows endpoint key request_hash now (err e) l = err e

unfoldable pub find_replay : String → String → String → ℕ → Ledger → Result (Option Replay × Ledger)
unfolding judge_rows judge_record
find_replay endpoint key request_hash now l =
    judge_rows endpoint key request_hash now
      (scalar_one_or_none (select (has_key endpoint key) l.idempotency)) l

abbrev pub hour : ℕ
hour = 3600000000

unfoldable pub store_response :
    String → String → String → ℕ → Value → String → ℕ → ℕ → Ledger → Ledger
store_response endpoint key request_hash status body trace_id now retention_hours l = record l {
  idempotency =
      record {
        endpoint = endpoint;
        idempotency_key = key;
        request_hash = request_hash;
        response_status = status;
        response_body = body;
        trace_id = trace_id;
        expires_at = now + retention_hours * hour;
      }
      ∷ l.idempotency;
}

-- Looking for a replay touches neither the audit journal nor the outbox.
pub find_replay_keeps :
    (endpoint key request_hash : String) (now : ℕ) (l : Ledger) {o : Option Replay} {l' : Ledger}
    → find_replay endpoint key request_hash now l ≡ ok (o, l')
    → (l'.audits ≡ l.audits) × (l'.outbox ≡ l.outbox)
unfolding find_replay judge_rows judge_record
find_replay_keeps endpoint key request_hash now l h = ground arith

-- What a lookup may do to the idempotency records: nothing, or, when the record of the key has expired,
-- the removal of that record.
abbrev pub OnlyExpired :
    String → String → ℕ → List IdempotencyRecord → List IdempotencyRecord → Type 0
OnlyExpired endpoint key now before after =
    (after ≡ before)
    ⊎ ((after ≡ select (λ r. not (has_key endpoint key r)) before)
        × All (λ r. has_key endpoint key r ≡ true → r.expires_at ≤ now) before)

judged-OnlyExpired :
    (endpoint key request_hash : String) (now : ℕ) (l : Ledger) (r : IdempotencyRecord)
    {o : Option Replay} {l' : Ledger}
    → All (λ x. has_key endpoint key x ≡ true → x ≡ r) l.idempotency
    → judge_record endpoint key request_hash now (some r) l ≡ ok (o, l')
    → OnlyExpired endpoint key now l.idempotency l'.idempotency
unfolding judge_record
judged-OnlyExpired endpoint key request_hash now l r only h =
    elim (Bool-cases (leb r.expires_at now)) [
      | inl late ↦ inr (
        ground (arith, h, late),
        All-imp l.idempotency
            (λ x same mine.
              subst (λ (y : IdempotencyRecord). y.expires_at ≤ now) (sym (same mine))
                (ground (arith, late)))
            only,
      )
      | inr early ↦ elim (Bool-cases (not (str_eq r.request_hash request_hash))) [
        | inl other ↦ cc (rw (early, other) at h)
        | inr same ↦ inl (ground (arith, h, early, same))
      ]
    ]

pub find_replay-OnlyExpired :
    (endpoint key request_hash : String) (now : ℕ) (l : Ledger) {o : Option Replay} {l' : Ledger}
    → find_replay endpoint key request_hash now l ≡ ok (o, l')
    → OnlyExpired endpoint key now l.idempotency l'.idempotency
unfolding find_replay judge_rows judge_record
find_replay-OnlyExpired endpoint key request_hash now l {o} {l'} h =
    by_rows (scalar_one_or_none (select (has_key endpoint key) l.idempotency)) refl h
  where
    by_rows :
        (found : Result (Option IdempotencyRecord))
        → scalar_one_or_none (select (has_key endpoint key) l.idempotency) ≡ found
        → judge_rows endpoint key request_hash now found l ≡ ok (o, l')
        → OnlyExpired endpoint key now l.idempotency l'.idempotency
    by_rows (err e) read h = cc
    by_rows (ok none) read h = inl (ground (arith, h))
    by_rows (ok (some r)) read h =
        judged-OnlyExpired endpoint key request_hash now l r
          (scalar_one_unique (has_key endpoint key) l.idempotency
            (one_or_none (select (has_key endpoint key) l.idempotency) read)).0
          h
