-- ===== src/Call/Unchanged.antt =====
-- What `idempotent` leaves alone: a replay writes nothing, and an exception of a body that commits
-- nothing itself leaves the durable store as it was.
use fireviewer_backend.Call.{
  Answer, Call, LedgerIn, ResponseModel, after_lookup, continue_with, from_body, from_replay,
  idempotent,
}
use fireviewer_backend.Errors.{Failure}
use fireviewer_backend.Ledger.{Ledger, Replay, find_replay}
use fireviewer_backend.Prelude.{
  Option, Option-cases, String, arith, false, inl, inr, none, refl, some, true, ℕ, ◌≡◌,
}
use fireviewer_backend.Session.{
  >>=-returned, Outcome, Result, Tx, err, lift, ok, raised, read-returned, request, returned, ◌>>=◌,
}

-- The durable store of an outcome that is an exception or a replay.
abbrev Keeps : {S R : Type 0} → S → Outcome S (Answer R) → Type 0
Keeps s (returned a d w) = a.replayed ≡ true → d ≡ s
Keeps s (raised e d) = d ≡ s

module _ {S R : Type 0} (L : LedgerIn S) (M : ResponseModel R) (endpoint hash : String) where
  -- An exception of the body leaves the durable store.
  abbrev pub CommitsNothing : Tx S R → Type 0
  CommitsNothing body =
      (durable working : S) (e : Failure) (d : S) → body durable working ≡ raised e d → d ≡ durable

  bind-Keeps :
      {A : Type 0} (s : S) (o : Outcome S A) (f : A → Tx S (Answer R))
      → ((e : Failure) (d : S) → o ≡ raised e d → d ≡ s)
      → ((a : A) (d w : S) → Keeps s (f a d w))
      → Keeps s (elim o [ returned a d w ↦ f a d w | raised e d ↦ raised e d ])
  bind-Keeps s (returned a d w) f h k = k a d w
  bind-Keeps s (raised e d) f h k = h e d refl

  body-Keeps :
      (call : Call) (status : ℕ) (body : Tx S R) (durable working : S)
      → CommitsNothing body
      → Keeps durable (from_body L M endpoint hash call status body durable working)
  body-Keeps call status body durable working safe =
      bind-Keeps durable (body durable working) _ (safe durable working) (λ r d w replayed. cc)

  replay-Keeps :
      (r : Replay) (durable working : S) (v : Option R)
      → M.validate r.response_body ≡ v
      → Keeps durable (from_replay L M endpoint hash r durable working)
  replay-Keeps r durable working none e = rw e refl
  replay-Keeps r durable working (some x) e = rw e (λ _. refl)

  continue-Keeps :
      (call : Call) (status : ℕ) (body : Tx S R) (found : Option Replay) (durable working : S)
      → CommitsNothing body
      → Keeps durable (continue_with L M endpoint hash call status body found durable working)
  continue-Keeps call status body none durable working safe =
      body-Keeps call status body durable working safe
  continue-Keeps call status body (some r) durable working safe =
      replay-Keeps r durable working _ refl

  lookup-Keeps :
      (call : Call) (status : ℕ) (body : Tx S R) (found : Result (Option Replay × Ledger)) (db : S)
      → CommitsNothing body
      → Keeps db ((lift found >>= after_lookup L M endpoint hash call status body db) db db)
  lookup-Keeps call status body (ok found) db safe =
      continue-Keeps call status body found.0 db (L.with_ledger found.1 db) safe
  lookup-Keeps call status body (err e) db safe = refl

  Keeps-outcome :
      (db : S) (o : Outcome S (Answer R)) {e : Failure} {d : S}
      → Keeps db o
      → o ≡ raised e d
      → d ≡ db
  Keeps-outcome db (returned a d w) k h = cc
  Keeps-outcome db (raised e d) k h = ground (arith, k, h)

  pub idempotent-raised :
      (call : Call) (status : ℕ) (body : Tx S R) (db d : S) (e : Failure)
      → CommitsNothing body
      → request (idempotent L M endpoint hash call status body) db ≡ raised e d
      → d ≡ db
  unfolding idempotent
  idempotent-raised call status body db d e safe h =
      Keeps-outcome db _
        (lookup-Keeps call status body
          (find_replay endpoint call.idempotency_key hash call.replay_at (L.ledger db)) db safe)
        h

  -- A replay leaves the durable store, whatever the body.
  from_replay-unchanged :
      (r : Replay) (durable working d w : S) (a : Answer R)
      → from_replay L M endpoint hash r durable working ≡ returned a d w
      → d ≡ durable
  from_replay-unchanged r durable working d w a h =
      elim (Option-cases (M.validate r.response_body)) [
        | inl e ↦ cc (rw e at h)
        | inr v ↦ ground (arith, rw v.1 at h)
      ]

  fresh_answer :
      (call : Call) (status : ℕ) (body : Tx S R) (durable working d w : S) (a : Answer R)
      → from_body L M endpoint hash call status body durable working ≡ returned a d w
      → a.replayed ≡ false
  fresh_answer call status body durable working d w a h =
      let (r, d₀, w₀, ran, rest) = >>=-returned _ body durable working h in ground arith

  pub idempotent-replayed :
      (call : Call) (status : ℕ) (body : Tx S R) (db d w : S) (r : R)
      → request (idempotent L M endpoint hash call status body) db
        ≡ returned (record { response = r; replayed = true }) d w
      → d ≡ db
  unfolding idempotent
  idempotent-replayed call status body db d w r h =
      let (found, looked, ran) =
        read-returned (find_replay endpoint call.idempotency_key hash call.replay_at (L.ledger db))
          _ db db h in
      which found.1 found.0 ran
    where
      which :
          (l : Ledger) (o : Option Replay)
          → continue_with L M endpoint hash call status body o db (L.with_ledger l db)
            ≡ returned (record { response = r; replayed = true }) d w
          → d ≡ db
      which l none ran = cc (fresh_answer call status body db (L.with_ledger l db) d w _ ran)
      which l (some x) ran = from_replay-unchanged x db (L.with_ledger l db) d w _ ran
