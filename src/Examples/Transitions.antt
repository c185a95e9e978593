-- ===== src/Examples/Transitions.antt =====
-- A confirmation of a reviewed incident, its repetition, and a refusal for want of the role.
use fireviewer_backend.Actor.{Actor, has_any_role, has_role}
use fireviewer_backend.Call.{Answer, Call, idempotent}
use fireviewer_backend.Enums.{ActorType, active_confirmed, limited, under_review, unverified}
use fireviewer_backend.Errors.{Failure, validation_error}
use fireviewer_backend.Examples.Stubs.{plain_platform, read_response, read_response-response_dump}
use fireviewer_backend.Incident.Lifecycle.{
  TransitionRequest, TransitionResponse, judge, moved_episode, role_ok,
}
use fireviewer_backend.Incident.Rows.{Episode, IncidentSeries, Registry}
use fireviewer_backend.Incident.StateMachine.{get_transition_rule}
use fireviewer_backend.Incident.Transition.{
  attempt, carry_out, transition_endpoint, transition_incident,
}
use fireviewer_backend.Incident.Transition.Accepted.{transition_incident-retry}
use fireviewer_backend.Incident.Transition.Coherence.{IsCoherent, transition_incident-IsCoherent}
use fireviewer_backend.Incident.Transition.Lawful.{IsLawful, transition_incident-IsLawful}
use fireviewer_backend.Incident.Transition.Refused.{Untouched, transition_incident-Untouched}
use fireviewer_backend.Incident.Visibility.{canonical_public_visibility}
use fireviewer_backend.Ledger.{find_replay, store_response}
use fireviewer_backend.Prelude.{
  [], any, arith, false, inr, none, refl, select, some, true, ℕ, ◌∷◌, ◌≡◌,
}
use fireviewer_backend.Session.{
  Outcome, durable_of, raised, request, returned, scalar_one, scalar_one_or_none,
}

abbrev pub incident : IncidentSeries
incident = record {
  id = 1;
  fire_id = "FR-2A-000001";
  territory_code = "2A";
  sequence = 1;
  canonical_name = none;
  reference_lon = 8;
  reference_lat = 42;
  horizontal_uncertainty_m = 500;
  bbox_min_lon = 7;
  bbox_max_lon = 9;
  bbox_min_lat = 41;
  bbox_max_lat = 43;
  public_visibility = limited;
  public_note = none;
  version = 2;
}

abbrev pub episode : Episode
episode = record {
  id = 7;
  incident_id = 1;
  episode_id = "EP-1";
  ordinal = 1;
  status = under_review;
  verification_state = unverified;
  corroborating_source_count = 0;
  evidence_basis_at = none;
  estimated_area_ha = none;
  evacuation_established = false;
  evacuation_basis = none;
  review_required = true;
  is_current = true;
  confidence_policy = "v1";
  started_at = 10;
  last_observed_at = 20;
  validated_at = none;
  ended_at = none;
  version = 3;
}

abbrev pub registry : Registry
registry = record {
  incidents = incident ∷ [];
  episodes = episode ∷ [];
  observations = [];
  sources = [];
  counters = record { territory_code = "2A"; next_sequence = 2 } ∷ [];
  ledger = record { audits = []; outbox = []; idempotency = []; drawn = 0 };
}

abbrev pub validator : Actor
validator = record {
  actor_id = "alice";
  roles = "validator" ∷ [];
  actor_type = ActorType.operator;
  csrf_token = none;
}

abbrev analyst : Actor
analyst = record validator { roles = "analyst" ∷ [] }

abbrev pub call_of : Actor → ℕ → Call
call_of actor at = record {
  idempotency_key = "key-1";
  actor = actor;
  trace_id = "trace-1";
  idempotency_retention_hours = 24;
  replay_at = at;
  now = at;
  stored_at = at;
}

abbrev pub confirmation : TransitionRequest
confirmation = record {
  target_status = active_confirmed;
  expected_version = 3;
  reason = "seen by two crews";
  public_note = none;
  validation_basis = some "crew report";
}

abbrev run : Actor → ℕ → Registry → Outcome Registry (Answer TransitionResponse)
run actor at db =
    request
      (transition_incident plain_platform "FR-2A-000001" confirmation (call_of actor at)
        read_response)
      db

abbrev answer : TransitionResponse
answer = record {
  fire_id = "FR-2A-000001";
  episode_id = "EP-1";
  previous_status = under_review;
  status = active_confirmed;
  version = 4;
  review_required = false;
  trace_id = "trace-1";
}

abbrev confirmed : Registry
confirmed = durable_of (run validator 100 registry)

confirmed-run :
    run validator 100 registry
    ≡ returned (record { response = answer; replayed = false }) confirmed confirmed
unfolding transition_incident idempotent find_replay store_response attempt plain_platform
    scalar_one_or_none select scalar_one carry_out judge get_transition_rule role_ok has_any_role
    any has_role moved_episode
confirmed-run = refl

confirmed-IsLawful :
    IsLawful "FR-2A-000001" confirmation (call_of validator 100) registry answer confirmed
confirmed-IsLawful =
    transition_incident-IsLawful plain_platform "FR-2A-000001" confirmation (call_of validator 100)
      read_response registry confirmed confirmed answer confirmed-run

confirmed_again :
    run validator 200 confirmed
    ≡ returned (record { response = answer; replayed = true }) confirmed confirmed
confirmed_again =
    transition_incident-retry plain_platform "FR-2A-000001" confirmation (call_of validator 100)
      (call_of validator 200) read_response registry confirmed confirmed answer
      read_response-response_dump refl refl (ground arith) confirmed-run

registry-IsCoherent : IsCoherent registry.incidents registry.episodes
unfolding canonical_public_visibility
registry-IsCoherent = (((λ _. inr refl), tt), tt)

confirmed-IsCoherent : IsCoherent confirmed.incidents confirmed.episodes
confirmed-IsCoherent =
    transition_incident-IsCoherent plain_platform "FR-2A-000001" confirmation
      (call_of validator 100) read_response registry confirmed confirmed answer registry-IsCoherent
      confirmed-run

abbrev failure_of : Outcome Registry (Answer TransitionResponse) → Failure
failure_of (returned a d w) = validation_error
failure_of (raised e d) = e

refused_run :
    run analyst 100 registry
    ≡ raised (failure_of (run analyst 100 registry)) (durable_of (run analyst 100 registry))
unfolding transition_incident idempotent find_replay store_response attempt plain_platform
    scalar_one_or_none select scalar_one carry_out judge get_transition_rule role_ok has_any_role
    any has_role
refused_run = refl

refused-Untouched :
    Untouched
      (transition_endpoint "FR-2A-000001")
      (call_of analyst 100).idempotency_key
      (call_of analyst 100).replay_at
      registry
      (durable_of (run analyst 100 registry))
refused-Untouched =
    transition_incident-Untouched plain_platform "FR-2A-000001" confirmation (call_of analyst 100)
      read_response registry (durable_of (run analyst 100 registry))
      (failure_of (run analyst 100 registry)) refused_run
