-- ===== src/Call.antt =====
-- The frame that every mutating service shares: its keyword arguments, its readings of the clock, and
-- the sequence `find_replay`, body, `store_response`, `commit` around the body of the service.
pub mod Retry
pub mod Unchanged
use fireviewer_backend.Actor.{Actor}
use fireviewer_backend.Errors.{validation_error}
use fireviewer_backend.Ledger.{Ledger, Replay, find_replay, store_response}
use fireviewer_backend.Platform.{Value}
use fireviewer_backend.Prelude.{Bool, Option, String, false, none, some, true, ℕ, ◌≡◌}
use fireviewer_backend.Session.{
  Result, Tx, commit, err, get, lift, ok, pure, put, rollback, ◌>>=◌, ◌>>◌,
}

-- `replay_at`, `now` and `stored_at` are the successive results of `utcnow()`: in `find_replay`, in
-- the body and in `store_response`.
pub record Call : Type 0 where
  pub idempotency_key : String
  pub actor : Actor
  pub trace_id : String
  pub idempotency_retention_hours : ℕ
  pub replay_at : ℕ
  pub now : ℕ
  pub stored_at : ℕ

-- A store that holds a ledger.
pub record LedgerIn (S : Type 0) : Type 0 where
  pub ledger : S → Ledger
  pub with_ledger : Ledger → S → S
  pub ledger-with_ledger : (l : Ledger) (s : S) → ledger (with_ledger l s) ≡ l

-- A response model: `model_dump` of the code, and `model_validate`, which the pydantic library gives.
pub record ResponseModel (R : Type 0) : Type 0 where
  pub dump : R → Value
  pub validate : Value → Option R

-- The outcome of a mutation: its response, and whether an earlier request had stored it.
pub record Answer (R : Type 0) : Type 0 where
  pub response : R
  pub replayed : Bool

abbrev pub validated : {R : Type 0} → Option R → Result R
validated none = err validation_error
validated (some r) = ok r

module _ {S R : Type 0} (L : LedgerIn S) (M : ResponseModel R)
    (endpoint request_hash : String) where
  abbrev pub from_replay : Replay → Tx S (Answer R)
  from_replay r = do
    rollback
    response ← lift (validated (M.validate r.response_body))
    pure (record { response = response; replayed = true })

  abbrev pub from_body : Call → ℕ → Tx S R → Tx S (Answer R)
  from_body call status body = do
    response ← body
    s ← get
    put (
        L.with_ledger
          (store_response endpoint call.idempotency_key request_hash status (M.dump response)
            call.trace_id call.stored_at call.idempotency_retention_hours (L.ledger s))
          s)
    commit
    pure (record { response = response; replayed = false })

  abbrev pub continue_with : Call → ℕ → Tx S R → Option Replay → Tx S (Answer R)
  continue_with call status body none = from_body call status body
  continue_with call status body (some r) = from_replay r

  -- After `find_replay`: its deletion of an expired record is kept, then the replay or the body.
  abbrev pub after_lookup : Call → ℕ → Tx S R → S → Option Replay × Ledger → Tx S (Answer R)
  after_lookup call status body s found =
      put (L.with_ledger found.1 s) >> continue_with call status body found.0

  unfoldable pub idempotent : Call → ℕ → Tx S R → Tx S (Answer R)
  idempotent call status body = do
    s ← get
    found ←
        lift (find_replay endpoint call.idempotency_key request_hash call.replay_at (L.ledger s))
    after_lookup call status body s found
