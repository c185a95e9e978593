-- ===== src/Incident/Transition/Accepted.antt =====
-- What a successful `transition_incident` has checked and written.
use fireviewer_backend.Call.{Call, idempotent}
use fireviewer_backend.Call.Retry.{KeepsRecords, from_body_lem, idempotent-fresh, idempotent-retry}
use fireviewer_backend.Errors.{Failure}
use fireviewer_backend.Incident.Lifecycle.{
  TransitionRequest, TransitionResponse, Verdict, allowed, basis_required, has_fire_id,
  illegal_transition, insufficient_role, is_current_of, judge, moved_episode, moved_incident,
  put_episode, put_incident, registry_ledger, request_dump, response_dump,
}
use fireviewer_backend.Incident.Rows.{Episode, IncidentSeries, Registry}
use fireviewer_backend.Incident.Transition.{
  apply_transition, attempt, carry_out, request_hash, response_model, response_of,
  transition_endpoint, transition_incident,
}
use fireviewer_backend.Ledger.{Ledger, emit_outbox, hour, record_operator_audit}
use fireviewer_backend.Platform.{Platform, Value, object, sha256_hex, text}
use fireviewer_backend.Prelude.{
  Bool-cases, Option, String, [], ap, arith, false, if◌then◌else◌, inl, inr, select, some, subst,
  sym, true, ◌*◌, ◌+◌, ◌<◌, ◌==◌, ◌∙◌, ◌∷◌, ◌≡◌,
}
use fireviewer_backend.Session.{
  ok, or_not_found-ok, raise, read-returned, request, returned, scalar_one, scalar_one_or_none,
}

module _ (P : Platform) (fire_id : String) (p : TransitionRequest) (call : Call) where
  -- The rows that the handler found, the tests that they passed, and the rows that it wrote.
  pub record Accepted (s : Registry) (r : TransitionResponse) (s' : Registry) : Type 0 where
    pub incident : IncidentSeries
    pub episode : Episode
    pub found : scalar_one_or_none (select (has_fire_id fire_id) s.incidents) ≡ ok (some incident)
    pub current : scalar_one (select (is_current_of incident.id) s.episodes) ≡ ok episode
    pub fresh : episode.version ≡ p.expected_version
    pub permitted : judge call.actor episode.status p ≡ allowed
    pub responded :
        r ≡ response_of P fire_id p call episode (moved_episode p.target_status call.now episode)
    pub episodes :
        s'.episodes ≡ put_episode (moved_episode p.target_status call.now episode) s.episodes
    pub incidents :
        s'.incidents
        ≡ put_incident
            (moved_incident p episode.status
              (moved_episode p.target_status call.now episode).verification_state
              incident)
            s.incidents
    pub observations : s'.observations ≡ s.observations
    pub sources : s'.sources ≡ s.sources
    pub counters : s'.counters ≡ s.counters

  carry_out-returned :
      (v : Verdict) (incident : IncidentSeries) (episode : Episode) (d w d' w' : Registry)
      (r : TransitionResponse)
      → carry_out P fire_id p call v incident episode d w ≡ returned r d' w'
      → (v ≡ allowed)
        × (d' ≡ d)
        × (apply_transition P fire_id p call incident episode d w ≡ returned r d w')
  unfolding carry_out
  carry_out-returned illegal_transition incident episode d w d' w' r h = cc
  carry_out-returned insufficient_role incident episode d w d' w' r h = cc
  carry_out-returned basis_required incident episode d w d' w' r h = cc
  carry_out-returned allowed incident episode d w d' w' r h = ground arith

  checked-returned :
      (incident : IncidentSeries) (episode : Episode) (v : Verdict) (e : Failure)
      (d w d' w' : Registry) (r : TransitionResponse)
      → (if episode.version == p.expected_version
            then carry_out P fire_id p call v incident episode
            else raise e)
          d w
        ≡ returned r d' w'
      → (episode.version ≡ p.expected_version)
        × (v ≡ allowed)
        × (apply_transition P fire_id p call incident episode d w ≡ returned r d w')
  checked-returned incident episode v e d w d' w' r h =
      elim (Bool-cases (episode.version == p.expected_version)) [
        | inl same ↦
            let (a, _, ran) = carry_out-returned v incident episode d w d' w' r (rw same at h) in
            (ground arith, a, ran)
        | inr other ↦ cc (rw other at h)
      ]

  apply-Accepted :
      (incident : IncidentSeries) (episode : Episode) (d w w' : Registry) (r : TransitionResponse)
      → scalar_one_or_none (select (has_fire_id fire_id) w.incidents) ≡ ok (some incident)
      → scalar_one (select (is_current_of incident.id) w.episodes) ≡ ok episode
      → episode.version ≡ p.expected_version
      → judge call.actor episode.status p ≡ allowed
      → apply_transition P fire_id p call incident episode d w ≡ returned r d w'
      → Accepted w r w'
  unfolding apply_transition emit_outbox record_operator_audit
  apply-Accepted incident episode d w w' r found current fresh permitted h = record {
    incident = incident;
    episode = episode;
    found = found;
    current = current;
    fresh = fresh;
    permitted = permitted;
    responded = ground arith;
    episodes = ground arith;
    incidents = ground arith;
    observations = ground arith;
    sources = ground arith;
    counters = ground arith;
  }

  apply-records :
      (incident : IncidentSeries) (episode : Episode) (d w w' : Registry) (r : TransitionResponse)
      → apply_transition P fire_id p call incident episode d w ≡ returned r d w'
      → w'.ledger.idempotency ≡ w.ledger.idempotency
  unfolding apply_transition emit_outbox record_operator_audit
  apply-records incident episode d w w' r h = ground arith

  attempt-Accepted :
      (d w d' w' : Registry) (r : TransitionResponse)
      → attempt P fire_id p call d w ≡ returned r d' w'
      → Accepted w r w' × (w'.ledger.idempotency ≡ w.ledger.idempotency)
  unfolding attempt
  attempt-Accepted d w d' w' r h =
      let (o, found, h₁) = read-returned _ _ d w h in
      let (incident, there, h₂) = read-returned _ _ d w h₁ in
      let (episode, current, h₃) = read-returned _ _ d w h₂ in
      let (fresh, permitted, ran) =
        checked-returned incident episode (judge call.actor episode.status p) _ d w d' w' r h₃ in
      (
        apply-Accepted incident episode d w w' r
            (found ∙ ap ok (or_not_found-ok "incident" fire_id o there)) current fresh permitted
            ran,
        apply-records incident episode d w w' r ran,
      )

  -- The tables apart from the ledger are what `Accepted` is about.
  Accepted-with_ledger :
      (s : Registry) (r : TransitionResponse) (s' : Registry) (l l' : Ledger)
      → Accepted (record s { ledger = l }) r s'
      → Accepted s r (record s' { ledger = l' })
  Accepted-with_ledger s r s' l l' a = record {
    incident = a.incident;
    episode = a.episode;
    found = a.found;
    current = a.current;
    fresh = a.fresh;
    permitted = a.permitted;
    responded = a.responded;
    episodes = a.episodes;
    incidents = a.incidents;
    observations = a.observations;
    sources = a.sources;
    counters = a.counters;
  }

  pub attempt-KeepsRecords :
      (validate : Value → Option TransitionResponse)
      → KeepsRecords registry_ledger
          (response_model P fire_id p call validate)
          (transition_endpoint fire_id)
          (request_hash P fire_id p call)
          (attempt P fire_id p call)
  attempt-KeepsRecords validate d w r d' w' h = (attempt-Accepted d w d' w' r h).1

  module _ (validate : Value → Option TransitionResponse) where
    -- A transition that is answered afresh found one incident with that identifier and one current
    -- episode at the expected version, passed the rule, role and basis tests, and wrote these two rows.
    pub transition_incident-Accepted :
        (db d w : Registry) (r : TransitionResponse)
        → request (transition_incident P fire_id p call validate) db
          ≡ returned (record { response = r; replayed = false }) d w
        → Accepted db r d
    unfolding transition_incident
    transition_incident-Accepted db d w r h =
        let M = response_model P fire_id p call validate in
        let E = transition_endpoint fire_id in
        let H = request_hash P fire_id p call in
        let (l, _, ran) =
          idempotent-fresh registry_ledger M E H call 200 (attempt P fire_id p call) db d w r h in
        let (d₀, w₀, done, _, stored) =
          from_body_lem registry_ledger M E H call 200 (attempt P fire_id p call) db
            (record db { ledger = l }) d w r ran in
        let a = (attempt-Accepted db (record db { ledger = l }) d₀ w₀ r done).0 in
        rw stored (Accepted-with_ledger db r w₀ l _ a)

-- The same request by the same actor under the same key, sent again while the response is retained,
-- gets the first response, marked as replayed, and changes nothing. `round_trip` is what
-- `model_validate` promises of a dumped response.
pub transition_incident-retry :
    (P : Platform) (fire_id : String) (p : TransitionRequest) (call retry : Call)
    (validate : Value → Option TransitionResponse) (db d w : Registry) (r : TransitionResponse)
    → ((x : TransitionResponse) → validate (response_dump x) ≡ some x)
    → retry.actor.actor_id ≡ call.actor.actor_id
    → retry.idempotency_key ≡ call.idempotency_key
    → retry.replay_at < call.stored_at + call.idempotency_retention_hours * hour
    → request (transition_incident P fire_id p call validate) db
      ≡ returned (record { response = r; replayed = false }) d w
    → request (transition_incident P fire_id p retry validate) d
      ≡ returned (record { response = r; replayed = true }) d d
unfolding transition_incident
transition_incident-retry P fire_id p call retry validate db d w r round_trip actor key early h =
    subst
      (λ (hash : String).
        request
          (idempotent registry_ledger (response_model P fire_id p call validate)
            (transition_endpoint fire_id) hash retry 200 (attempt P fire_id p retry))
          d
        ≡ returned (record { response = r; replayed = true }) d d)
      (ap
        (λ (id : String).
          sha256_hex P (object (("actor_id", text id) ∷ ("payload", request_dump p) ∷ [])))
        (sym actor))
      (idempotent-retry registry_ledger (response_model P fire_id p call validate)
        (transition_endpoint fire_id) (request_hash P fire_id p call) 200 (attempt P fire_id p call)
        (attempt-KeepsRecords P fire_id p call validate) round_trip call retry 200
        (attempt P fire_id p retry) db d w r key early h)
