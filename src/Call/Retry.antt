-- ===== src/Call/Retry.antt =====
-- What `idempotent` promises whatever the body does: a request that was answered is answered the same
-- way when it is sent again, and the second time nothing is written.
use fireviewer_backend.Call.{Call, LedgerIn, ResponseModel, continue_with, from_body, idempotent}
use fireviewer_backend.Ledger.{
  IdempotencyRecord, Ledger, Replay, find_replay, has_key, hour, store_response,
}
use fireviewer_backend.Platform.{Value}
use fireviewer_backend.Prelude.{
  List, Option, Option-cases, String, [], ap, arith, eq_refl, false, inl, inr, none, refl, select,
  select-select-not, some, true, ℕ, ◌*◌, ◌+◌, ◌<◌, ◌∙◌, ◌∷◌, ◌≡◌,
}
use fireviewer_backend.Session.{
  >>=-returned, Tx, lift, lift-returned, ok, request, returned, scalar_one_or_none,
}

abbrev pub rows_with_key : String → String → Ledger → List IdempotencyRecord
rows_with_key endpoint key l = select (has_key endpoint key) l.idempotency

scalar_none : {A : Type 0} (rows : List A) → scalar_one_or_none rows ≡ ok none → rows ≡ []
unfolding scalar_one_or_none
scalar_none [] h = refl
scalar_none (x ∷ []) h = cc
scalar_none (x ∷ y ∷ r) h = cc

find_replay-none :
    (endpoint key hash : String) (now : ℕ) (l l' : Ledger)
    → find_replay endpoint key hash now l ≡ ok (none, l')
    → rows_with_key endpoint key l' ≡ []
unfolding find_replay
find_replay-none endpoint key hash now l l' h = ground (
  arith,
  scalar_none (rows_with_key endpoint key l),
  select-select-not (has_key endpoint key) l.idempotency,
)

-- A record that was just stored is found until it expires.
find_replay-store_response :
    (endpoint key hash : String) (status : ℕ) (body : Value) (trace : String) (now hours t : ℕ)
    (l : Ledger)
    → rows_with_key endpoint key l ≡ []
    → t < now + hours * hour
    → find_replay endpoint key hash t
        (store_response endpoint key hash status body trace now hours l)
      ≡ ok (
        some (record { response_status = status; response_body = body; trace_id = trace }),
        store_response endpoint key hash status body trace now hours l,
      )
unfolding find_replay store_response select scalar_one_or_none
find_replay-store_response endpoint key hash status body trace now hours t l fresh early =
    ground (arith, eq_refl endpoint, eq_refl key, eq_refl hash)

module _ {S R : Type 0} (L : LedgerIn S) (M : ResponseModel R) (endpoint hash : String) where
  -- The body leaves the idempotency records alone.
  abbrev pub KeepsRecords : Tx S R → Type 0
  KeepsRecords body =
      (durable working : S) (r : R) (d w : S)
      → body durable working ≡ returned r d w
      → (L.ledger w).idempotency ≡ (L.ledger working).idempotency

  -- The store after a fresh answer: its ledger is that of the body with the response stored.
  pub from_body_lem :
      (call : Call) (status : ℕ) (body : Tx S R) (durable working d w : S) (r : R)
      → from_body L M endpoint hash call status body durable working
        ≡ returned (record { response = r; replayed = false }) d w
      → (d₀ w₀ : S) × (body durable working ≡ returned r d₀ w₀)
        × (w ≡ d)
        × (d
            ≡ L.with_ledger
                (store_response endpoint call.idempotency_key hash status
                  (M.dump r)
                  call.trace_id
                  call.stored_at
                  call.idempotency_retention_hours
                  (L.ledger w₀))
                w₀)
  from_body_lem call status body durable working d w r h =
      let (a, d₀, w₀, ran, rest) = >>=-returned _ body durable working h in
      (d₀, w₀, ground arith, ground arith, ground arith)

  fresh_branch :
      (call : Call) (status : ℕ) (body : Tx S R) (found : Option Replay) (durable working d w : S)
      (r : R)
      → continue_with L M endpoint hash call status body found durable working
        ≡ returned (record { response = r; replayed = false }) d w
      → (found ≡ none)
        × (from_body L M endpoint hash call status body durable working
            ≡ returned (record { response = r; replayed = false }) d w)
  fresh_branch call status body none durable working d w r h = (refl, h)
  fresh_branch call status body (some x) durable working d w r h =
      elim (Option-cases (M.validate x.response_body)) [
        | inl e ↦ cc (rw e at h)
        | inr v ↦ ground (arith, v.1)
      ]

  -- A fresh answer: no live record was found, and the body ran.
  pub idempotent-fresh :
      (call : Call) (status : ℕ) (body : Tx S R) (db d w : S) (r : R)
      → request (idempotent L M endpoint hash call status body) db
        ≡ returned (record { response = r; replayed = false }) d w
      → (l : Ledger) × (find_replay endpoint call.idempotency_key hash call.replay_at (L.ledger db)
          ≡ ok (none, l))
        × (from_body L M endpoint hash call status body db (L.with_ledger l db)
            ≡ returned (record { response = r; replayed = false }) d w)
  unfolding idempotent
  idempotent-fresh call status body db d w r h =
      let (found, d₁, w₁, looked, rest) =
        >>=-returned _
          (lift (find_replay endpoint call.idempotency_key hash call.replay_at (L.ledger db))) db db
          h in
      let (e, same_d, same_w) = lift-returned _ looked in
      let (missed, ran) =
        fresh_branch call status body found.0 d₁ (L.with_ledger found.1 db) d w r rest in
      (found.1, e ∙ ap (λ o. ok (o, found.1)) missed, rw same_d at ran)

  -- A live record of the same request: its response is the answer, and nothing is written.
  idempotent-replay :
      (call : Call) (status : ℕ) (body : Tx S R) (db : S) (x : Replay) (l : Ledger) (r : R)
      → find_replay endpoint call.idempotency_key hash call.replay_at (L.ledger db) ≡ ok (some x, l)
      → M.validate x.response_body ≡ some r
      → request (idempotent L M endpoint hash call status body) db
        ≡ returned (record { response = r; replayed = true }) db db
  unfolding idempotent
  idempotent-replay call status body db x l r found valid = rw found (rw valid)

  fresh_rows :
      (key : String) (now : ℕ) (db w₀ : S) (l : Ledger)
      → find_replay endpoint key hash now (L.ledger db) ≡ ok (none, l)
      → (L.ledger w₀).idempotency ≡ (L.ledger (L.with_ledger l db)).idempotency
      → rows_with_key endpoint key (L.ledger w₀) ≡ []
  fresh_rows key now db w₀ l missed kept =
      ap (select (has_key endpoint key))
        (kept ∙ ap (λ (g : Ledger). g.idempotency) (L.ledger-with_ledger l db))
      ∙ find_replay-none endpoint key hash now (L.ledger db) l missed

  module _ (status : ℕ) (body : Tx S R) (keeps : KeepsRecords body)
      (round_trip : (r : R) → M.validate (M.dump r) ≡ some r) where
    -- Sent again before the stored response expires, the request is answered by that response and
    -- the store does not change, whatever the second run's body would do.
    pub idempotent-retry :
        (call retry : Call) (status' : ℕ) (body' : Tx S R) (db d w : S) (r : R)
        → retry.idempotency_key ≡ call.idempotency_key
        → retry.replay_at < call.stored_at + call.idempotency_retention_hours * hour
        → request (idempotent L M endpoint hash call status body) db
          ≡ returned (record { response = r; replayed = false }) d w
        → request (idempotent L M endpoint hash retry status' body') d
          ≡ returned (record { response = r; replayed = true }) d d
    unfolding idempotent
    idempotent-retry call retry status' body' db d w r same early h =
        let (l, missed, ran) = idempotent-fresh call status body db d w r h in
        let (d₀, w₀, done, _, stored) =
          from_body_lem call status body db (L.with_ledger l db) d w r ran in
        let fresh =
          fresh_rows call.idempotency_key call.replay_at db w₀ l missed
            (keeps db (L.with_ledger l db) r d₀ w₀ done) in
        let at_d = ap L.ledger stored ∙ L.ledger-with_ledger _ w₀ in
        let found =
          find_replay-store_response endpoint call.idempotency_key hash status (M.dump r)
            call.trace_id call.stored_at call.idempotency_retention_hours retry.replay_at
            (L.ledger w₀) fresh early in
        idempotent-replay retry status' body' d _ _ r
          (ap (find_replay endpoint retry.idempotency_key hash retry.replay_at) at_d
            ∙ ap
                (λ (k : String). find_replay endpoint k hash retry.replay_at (
                  store_response endpoint call.idempotency_key hash status (M.dump r) call.trace_id
                    call.stored_at call.idempotency_retention_hours (L.ledger w₀)))
                same
            ∙ found)
          (round_trip r)
