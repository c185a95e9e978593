-- ===== src/Reviews/Retried.antt =====
-- services/reviews.py: a review that is sent again is answered by the first response.
use fireviewer_backend.Call.{Call, idempotent}
use fireviewer_backend.Call.Retry.{KeepsRecords, idempotent-retry}
use fireviewer_backend.Doubles.{Doubles, Settings}
use fireviewer_backend.Enums.{IncidentStatus}
use fireviewer_backend.Enums.Sources.{ReviewResolutionAction}
use fireviewer_backend.Incident.Create.{
  Keys, create_incident_and_episode, create_reactivation_episode,
}
use fireviewer_backend.Incident.FireId.{is_fire_id}
use fireviewer_backend.Incident.Lifecycle.{has_fire_id, is_current_of, registry_ledger}
use fireviewer_backend.Incident.Rows.{Episode, IncidentSeries, Observation, Registry}
use fireviewer_backend.Ledger.{Audit, Ledger, emit_outbox, hour, record_operator_audit}
use fireviewer_backend.Platform.{Platform, Value, object, sha256_hex, text}
use fireviewer_backend.Prelude.{
  Bool-cases, List, Option, String, [], ap, arith, false, inl, inr, none, refl, select, some, subst,
  sym, true, ◌*◌, ◌++◌, ◌+◌, ◌<◌, ◌==◌, ◌∙◌, ◌∷◌, ◌≡◌,
}
use fireviewer_backend.Reviews.Actions.{
  Decided, attach_to_current, attach_to_fire, attached_rows, create_from_observation, decide_action,
  reject_observation,
}
use fireviewer_backend.Reviews.Request.{
  ReviewResolutionRequest, ReviewResolutionResponse, has_observation_id, is_resolved,
  review_endpoint, review_request_dump, review_response_dump,
}
use fireviewer_backend.Reviews.Resolve.{
  change_audits, conclude, decided_row, evidence_audits, finish, put_observation, recalculated,
  record_all, resolve, resolve_body, resolve_review, resolved_audit, review_hash, review_model,
  review_observation, row_after, written,
}
use fireviewer_backend.Session.{
  ok, ok_value, or_not_found, read-returned, request, returned, scalar_one, scalar_one_or_none,
  then_read-ok,
}

-- A branch leaves the ledger alone.
attach_to_current-ledger :
    (F : Doubles) (settings : Settings) (keys : Keys) (p : ReviewResolutionRequest)
    (status : IncidentStatus) (incident : IncidentSeries) (current : Episode) (o : Observation)
    (s : Registry) {d : Decided}
    → attach_to_current F settings keys p status incident current o s ≡ ok d
    → d.registry.ledger ≡ s.ledger
unfolding attach_to_current create_reactivation_episode
attach_to_current-ledger F settings keys p status incident current o s h = ground arith

decide_action-ledger :
    (F : Doubles) (settings : Settings) (keys : Keys) (p : ReviewResolutionRequest)
    (action : ReviewResolutionAction) (o : Observation) (s : Registry) {d : Decided}
    → decide_action F settings keys p action o s ≡ ok d
    → d.registry.ledger ≡ s.ledger
unfolding decide_action reject_observation create_from_observation attach_to_fire
    create_incident_and_episode
decide_action-ledger F settings keys p ReviewResolutionAction.reject o s h =
    let (target, _, same) =
      then_read-ok (attached_rows o.attached_incident_id o.attached_episode_id s) _ h in
    ground arith
decide_action-ledger F settings keys p ReviewResolutionAction.create o s h = ground arith
decide_action-ledger F settings keys p ReviewResolutionAction.attach o s h =
    to_fire p.target_fire_id h
  where
    to_fire :
        (fire_id : Option String) {d : Decided}
        → attach_to_fire F settings keys p fire_id o s ≡ ok d
        → d.registry.ledger ≡ s.ledger
    to_fire none h = cc
    to_fire (some fire_id) h = elim (Bool-cases (is_fire_id fire_id)) [
      | inl e ↦
          let (found, _, h₁) =
            then_read-ok (scalar_one_or_none (select (has_fire_id fire_id) s.incidents)) _
              (rw e at h) in
          let (incident, _, h₂) = then_read-ok (or_not_found "incident" fire_id found) _ h₁ in
          let (current, _, h₃) =
            then_read-ok (scalar_one (select (is_current_of incident.id) s.episodes)) _ h₂ in
          attach_to_current-ledger F settings keys p current.status incident current o s h₃
      | inr e ↦ cc (rw e at h)
    ]

module _ (P : Platform) (F : Doubles) (settings : Settings) (keys : Keys) (observation_id : String)
    (p : ReviewResolutionRequest) (call : Call) where
  record_all-records :
      (audits : List Audit) (l : Ledger)
      → (record_all P F settings keys observation_id p call audits l).idempotency ≡ l.idempotency
  unfolding record_all record_operator_audit
  record_all-records [] l = refl
  record_all-records (a ∷ rest) l = record_all-records rest (record_operator_audit P call.actor a l)

  finish-records :
      (before : Observation) (d : Decided) (target : Option (IncidentSeries × Episode))
      → (finish P F settings keys observation_id p call before d target).1.ledger.idempotency
        ≡ d.registry.ledger.idempotency
  unfolding finish conclude emit_outbox
  finish-records before d none =
      let o = decided_row P F settings keys observation_id p call d in
      record_all-records
        ([] ++ (resolved_audit P F settings keys observation_id p call before o ∷ []))
        d.registry.ledger
  finish-records before d (some (incident, episode)) =
      let o = decided_row P F settings keys observation_id p call d in
      let rows =
        put_observation P F settings keys observation_id p call o d.registry.observations in
      let r =
        recalculated P F settings keys observation_id p call d.registry rows incident episode in
      record_all-records
        ((change_audits P F settings keys observation_id p call d.change r.incident r.episode
            ++ evidence_audits P F settings keys observation_id p call incident episode r)
          ++ (resolved_audit P F settings keys observation_id p call before
                (row_after o r.observations)
              ∷ []))
        d.registry.ledger

  review-records :
      (s s' : Registry) (o : Observation) (r : ReviewResolutionResponse)
      → review_observation P F settings keys observation_id p call s o ≡ ok (r, s')
      → s'.ledger.idempotency ≡ s.ledger.idempotency
  unfolding review_observation
  review-records s s' o r h = elim (Bool-cases (o.version == p.expected_version)) [
    | inl same ↦ elim (Bool-cases (is_resolved o.verification_state)) [
      | inl done ↦ cc (rw (same, done) at h)
      | inr pending ↦
          let (d, decided, finished) =
            then_read-ok (decide_action F settings keys p p.action o s) _
              (rw (same, pending) at h) in
          let kept = decide_action-ledger F settings keys p p.action o s decided in
          ap (λ (q : ReviewResolutionResponse × Registry). q.1.ledger.idempotency)
            (sym (ok_value finished))
          ∙ finish-records o d d.target
          ∙ ap (λ (l : Ledger). l.idempotency) kept
    ]
    | inr other ↦ cc (rw other at h)
  ]

  resolve_body-KeepsRecords :
      (validate : Value → Option ReviewResolutionResponse)
      → KeepsRecords registry_ledger
          (review_model P F settings keys observation_id p call validate)
          (review_endpoint observation_id)
          (review_hash P F settings keys observation_id p call)
          (resolve_body P F settings keys observation_id p call)
  unfolding resolve_body resolve
  resolve_body-KeepsRecords validate durable working r d w h =
      let (answer, resolved, written) =
        read-returned (resolve P F settings keys observation_id p call working) _ durable working
          h in
      let (found, _, h₁) =
        then_read-ok
          (scalar_one_or_none (select (has_observation_id observation_id) working.observations)) _
          resolved in
      let (o, _, h₂) = then_read-ok (or_not_found "observation" observation_id found) _ h₁ in
      let same : answer.1 ≡ w = ground (arith, written) in
      subst (λ (s : Registry). s.ledger.idempotency ≡ working.ledger.idempotency) same
        (review-records working answer.1 o answer.0 h₂)

-- The same review by the same actor under the same key, sent again while the response is retained,
-- gets the first response, marked as replayed, and changes nothing.
pub resolve_review-retry :
    (P : Platform) (F : Doubles) (settings : Settings) (keys keys' : Keys) (observation_id : String)
    (p : ReviewResolutionRequest) (call retry : Call)
    (validate : Value → Option ReviewResolutionResponse) (db d w : Registry)
    (r : ReviewResolutionResponse)
    → ((x : ReviewResolutionResponse) → validate (review_response_dump x) ≡ some x)
    → retry.actor.actor_id ≡ call.actor.actor_id
    → retry.idempotency_key ≡ call.idempotency_key
    → retry.replay_at < call.stored_at + call.idempotency_retention_hours * hour
    → request (resolve_review P F settings keys observation_id p call validate) db
      ≡ returned (record { response = r; replayed = false }) d w
    → request (resolve_review P F settings keys' observation_id p retry validate) d
      ≡ returned (record { response = r; replayed = true }) d d
unfolding resolve_review
resolve_review-retry P F settings keys keys' observation_id p call retry validate db d w r
      round_trip actor key early h =
    subst
      (λ (hash : String).
        request
          (idempotent registry_ledger
            (review_model P F settings keys observation_id p call validate)
            (review_endpoint observation_id) hash retry 200
            (resolve_body P F settings keys' observation_id p retry))
          d
        ≡ returned (record { response = r; replayed = true }) d d)
      (ap
        (λ (id : String).
          sha256_hex P (object (("actor_id", text id) ∷ ("payload", review_request_dump p) ∷ [])))
        (sym actor))
      (idempotent-retry registry_ledger
        (review_model P F settings keys observation_id p call validate)
        (review_endpoint observation_id) (review_hash P F settings keys observation_id p call) 200
        (resolve_body P F settings keys observation_id p call)
        (resolve_body-KeepsRecords P F settings keys observation_id p call validate) round_trip call
        retry 200 (resolve_body P F settings keys' observation_id p retry) db d w r key early h)
