-- ===== src/Incident/Transition/Refused.antt =====
-- What a refused `transition_incident` leaves behind: at most one audit row.
use fireviewer_backend.Call.{Call, after_lookup, continue_with, idempotent, validated}
use fireviewer_backend.Errors.{Failure}
use fireviewer_backend.Incident.Lifecycle.{
  TransitionRequest, TransitionResponse, Verdict, allowed, basis_required, has_fire_id,
  illegal_transition, insufficient_role, is_current_of, judge, registry_ledger,
}
use fireviewer_backend.Incident.Rows.{Episode, IncidentSeries, Registry}
use fireviewer_backend.Incident.Transition.{
  apply_transition, attempt, carry_out, checked, on_incident, on_lookup, rejection_audit,
  request_hash, response_model, transition_endpoint, transition_incident,
}
use fireviewer_backend.Ledger.{
  AuditEvent, Ledger, OnlyExpired, Replay, audit_event, find_replay, find_replay-OnlyExpired,
  find_replay_keeps, record_operator_audit,
}
use fireviewer_backend.Platform.{Platform, Value}
use fireviewer_backend.Prelude.{
  Bool-cases, List, Option, String, ap, false, inl, inr, none, refl, select, some, subst, true, ℕ,
  ◌==◌, ◌∷◌, ◌≡◌, ◌⊎◌,
}
use fireviewer_backend.Session.{
  Outcome, Result, Tx, err, lift, ok, or_not_found, raised, request, returned, scalar_one,
  scalar_one_or_none, ◌>>=◌,
}

-- The store as it was, but for an expired idempotency record and perhaps one audited refusal.
pub record Untouched (endpoint key : String) (now : ℕ) (s s' : Registry) : Type 0 where
  pub records : OnlyExpired endpoint key now s.ledger.idempotency s'.ledger.idempotency
  pub incidents : s'.incidents ≡ s.incidents
  pub episodes : s'.episodes ≡ s.episodes
  pub observations : s'.observations ≡ s.observations
  pub sources : s'.sources ≡ s.sources
  pub counters : s'.counters ≡ s.counters
  pub outbox : s'.ledger.outbox ≡ s.ledger.outbox
  pub audits :
      (s'.ledger.audits ≡ s.ledger.audits)
      ⊎ ((a : AuditEvent) × (s'.ledger.audits ≡ a ∷ s.ledger.audits)
          × (a.action ≡ "incident.transition.rejected"))

-- The claim about an outcome: it speaks of a raised exception only.
abbrev Spares : String → String → ℕ → {A : Type 0} → Registry → Outcome Registry A → Type 0
Spares E K now s (returned a d w) = Unit {0}
Spares E K now s (raised e d) = Untouched E K now s d

Untouched-refl : (E K : String) (now : ℕ) (s : Registry) → Untouched E K now s s
Untouched-refl E K now s = record {
  incidents = refl;
  episodes = refl;
  observations = refl;
  sources = refl;
  counters = refl;
  outbox = refl;
  records = inl refl;
  audits = inl refl;
}

Spares-read :
    (E K : String) (now : ℕ) {A B : Type 0} (s : Registry) (x : Result A) (f : A → Tx Registry B)
    (w : Registry)
    → ((a : A) → x ≡ ok a → Spares E K now s (f a s w))
    → Spares E K now s ((lift x >>= f) s w)
Spares-read E K now s (ok a) f w h = h a refl
Spares-read E K now s (err e) f w h = Untouched-refl E K now s

Spares-bind :
    (E K : String) (now : ℕ) {A B : Type 0} (s : Registry) (o : Outcome Registry A)
    (f : A → Tx Registry B)
    → Spares E K now s o
    → ((a : A) (d w : Registry) → Spares E K now s (f a d w))
    → Spares E K now s (elim o [ returned a d w ↦ f a d w | raised e d ↦ raised e d ])
Spares-bind E K now s (returned a d w) f h k = k a d w
Spares-bind E K now s (raised e d) f h k = h

Spares-raised :
    (E K : String) (now : ℕ) {A : Type 0} (s : Registry) (o : Outcome Registry A) {e : Failure}
    {d : Registry}
    → Spares E K now s o
    → o ≡ raised e d
    → Untouched E K now s d
Spares-raised E K now s (returned a d w) h e = cc
Spares-raised E K now s (raised x d') h e = subst (λ v. Untouched E K now s v) (cc) h

module _ (P : Platform) (fire_id : String) (p : TransitionRequest) (call : Call) where
  refusal-Untouched :
      (s : Registry) (l : Ledger) (cause : String) (episode : Episode)
      → l.audits ≡ s.ledger.audits
      → l.outbox ≡ s.ledger.outbox
      → OnlyExpired
          (transition_endpoint fire_id)
          call.idempotency_key
          call.replay_at
          s.ledger.idempotency
          l.idempotency
      → Untouched (transition_endpoint fire_id) call.idempotency_key call.replay_at s (record s {
        ledger =
            record_operator_audit P call.actor (rejection_audit P fire_id p call cause episode) l;
      })
  unfolding record_operator_audit
  refusal-Untouched s l cause episode audits outbox records =
      let row : AuditEvent =
        audit_event P call.actor.actor_type call.actor.actor_id
          (rejection_audit P fire_id p call cause episode) l.drawn in
      record {
        incidents = refl;
        episodes = refl;
        observations = refl;
        sources = refl;
        counters = refl;
        outbox = outbox;
        records = records;
        audits =
            inr
              (row, ap (λ (rest : List AuditEvent). row ∷ rest) audits, unfold audit_event in refl);
      }

  carry_out-Spares :
      (s : Registry) (l : Ledger) (v : Verdict) (incident : IncidentSeries) (episode : Episode)
      → l.audits ≡ s.ledger.audits
      → l.outbox ≡ s.ledger.outbox
      → OnlyExpired
          (transition_endpoint fire_id)
          call.idempotency_key
          call.replay_at
          s.ledger.idempotency
          l.idempotency
      → Spares
          (transition_endpoint fire_id)
          call.idempotency_key
          call.replay_at
          s
          (carry_out P fire_id p call v incident episode s (record s { ledger = l }))
  unfolding carry_out
  carry_out-Spares s l illegal_transition incident episode a o x =
      refusal-Untouched s l _ episode a o x
  carry_out-Spares s l insufficient_role incident episode a o x =
      refusal-Untouched s l _ episode a o x
  carry_out-Spares s l basis_required incident episode a o x =
      Untouched-refl (transition_endpoint fire_id) call.idempotency_key call.replay_at s
  carry_out-Spares s l allowed incident episode a o x = unfold apply_transition in tt

  checked-Spares :
      (s : Registry) (l : Ledger) (incident : IncidentSeries) (episode : Episode)
      → ((episode.version == p.expected_version) ≡ true)
        ⊎ ((episode.version == p.expected_version) ≡ false)
      → l.audits ≡ s.ledger.audits
      → l.outbox ≡ s.ledger.outbox
      → OnlyExpired
          (transition_endpoint fire_id)
          call.idempotency_key
          call.replay_at
          s.ledger.idempotency
          l.idempotency
      → Spares
          (transition_endpoint fire_id)
          call.idempotency_key
          call.replay_at
          s
          (checked P fire_id p call incident episode s (record s { ledger = l }))
  checked-Spares s l incident episode (inl e) a o x =
      rw e (carry_out-Spares s l (judge call.actor episode.status p) incident episode a o x)
  checked-Spares s l incident episode (inr e) a o x =
      rw e (Untouched-refl (transition_endpoint fire_id) call.idempotency_key call.replay_at s)

  attempt-Spares :
      (s : Registry) (l : Ledger)
      → l.audits ≡ s.ledger.audits
      → l.outbox ≡ s.ledger.outbox
      → OnlyExpired
          (transition_endpoint fire_id)
          call.idempotency_key
          call.replay_at
          s.ledger.idempotency
          l.idempotency
      → Spares
          (transition_endpoint fire_id)
          call.idempotency_key
          call.replay_at
          s
          (attempt P fire_id p call s (record s { ledger = l }))
  unfolding attempt
  attempt-Spares s l a o x =
      Spares-read (transition_endpoint fire_id) call.idempotency_key call.replay_at s
        (scalar_one_or_none (select (has_fire_id fire_id) s.incidents)) (on_lookup P fire_id p call)
        w
        (λ found _.
          Spares-read (transition_endpoint fire_id) call.idempotency_key call.replay_at s
            (or_not_found "incident" fire_id found) (on_incident P fire_id p call) w
            (λ incident _.
              Spares-read (transition_endpoint fire_id) call.idempotency_key call.replay_at s
                (scalar_one (select (is_current_of incident.id) s.episodes))
                (checked P fire_id p call incident) w
                (λ episode _.
                  checked-Spares s l incident episode
                    (Bool-cases (episode.version == p.expected_version)) a o x)))
    where
      w : Registry
      w = record s { ledger = l }

  module _ (validate : Value → Option TransitionResponse) where
    continue-Spares :
        (s : Registry) (l : Ledger) (o : Option Replay)
        → l.audits ≡ s.ledger.audits
        → l.outbox ≡ s.ledger.outbox
        → OnlyExpired
            (transition_endpoint fire_id)
            call.idempotency_key
            call.replay_at
            s.ledger.idempotency
            l.idempotency
        → Spares (transition_endpoint fire_id) call.idempotency_key call.replay_at s (
            continue_with registry_ledger
              (response_model P fire_id p call validate)
              (transition_endpoint fire_id)
              (request_hash P fire_id p call)
              call
              200
              (attempt P fire_id p call)
              o
              s
              (record s { ledger = l }))
    continue-Spares s l none a o x =
        Spares-bind (transition_endpoint fire_id) call.idempotency_key call.replay_at s
          (attempt P fire_id p call s (record s { ledger = l })) _ (attempt-Spares s l a o x)
          (λ r d w. tt)
    continue-Spares s l (some found) a o x =
        Spares-read (transition_endpoint fire_id) call.idempotency_key call.replay_at s
          (validated (validate found.response_body)) _ s (λ r _. tt)

    -- A request that ends with an exception has committed at most one audit row of a refusal, and
    -- perhaps the deletion of an expired idempotency record; every row of the registry is as it was,
    -- and no event was emitted.
    pub transition_incident-Untouched :
        (db d : Registry) (e : Failure)
        → request (transition_incident P fire_id p call validate) db ≡ raised e d
        → Untouched (transition_endpoint fire_id) call.idempotency_key call.replay_at db d
    unfolding transition_incident idempotent
    transition_incident-Untouched db d e h =
        let E = transition_endpoint fire_id in
        let H = request_hash P fire_id p call in
        Spares-raised (transition_endpoint fire_id) call.idempotency_key call.replay_at db
          (request (transition_incident P fire_id p call validate) db)
          (Spares-read (transition_endpoint fire_id) call.idempotency_key call.replay_at db
            (find_replay E call.idempotency_key H call.replay_at db.ledger)
            (after_lookup registry_ledger (response_model P fire_id p call validate) E H call 200
              (attempt P fire_id p call) db)
            db
            (λ found looked.
              let (a, o) =
                find_replay_keeps E call.idempotency_key H call.replay_at db.ledger looked in
              continue-Spares db found.1 found.0 a o
                (find_replay-OnlyExpired E call.idempotency_key H call.replay_at db.ledger looked)))
          h
