-- ===== src/Incident/Transition.antt =====
-- services/transitions.py: `transition_incident`, the audited change of an episode's state.
pub mod Accepted
pub mod Refused
pub mod Coherence
pub mod Lawful
use Prim.Native.String.{◌++◌}
use fireviewer_backend.Call.{Answer, Call, ResponseModel, idempotent}
use fireviewer_backend.Enums.{status_value}
use fireviewer_backend.Errors.{Failure, conflict, conflict_with, forbidden}
use fireviewer_backend.Incident.Lifecycle.{
  TransitionRequest, TransitionResponse, Verdict, allowed, basis_required, has_fire_id,
  illegal_transition, insufficient_role, is_current_of, judge, moved_episode, moved_incident,
  put_episode, put_incident, registry_ledger, request_dump, response_dump,
}
use fireviewer_backend.Incident.Rows.{
  Episode, IncidentSeries, Registry, episode_snapshot, incident_snapshot,
}
use fireviewer_backend.Ledger.{Audit, emit_outbox, record_operator_audit}
use fireviewer_backend.Platform.{Platform, Value, null, num, object, optional, sha256_hex, text}
use fireviewer_backend.Prelude.{
  Option, String, [], if◌then◌else◌, is_given, none, select, some, ◌==◌, ◌∷◌,
}
use fireviewer_backend.Session.{
  Tx, commit, get, lift, or_not_found, pure, put, raise, scalar_one, scalar_one_or_none, ◌>>=◌,
  ◌>>◌,
}

abbrev pub transition_endpoint : String → String
transition_endpoint fire_id = "POST /api/v1/operator/incidents/" ++ fire_id ++ "/transitions"

module _ (P : Platform) (fire_id : String) (p : TransitionRequest) (call : Call) where
  abbrev pub request_hash : String
  request_hash =
      sha256_hex P
        (object (("actor_id", text call.actor.actor_id) ∷ ("payload", request_dump p) ∷ []))

  abbrev pub rejection_audit : String → Episode → Audit
  rejection_audit cause episode = record {
    action = "incident.transition.rejected";
    target_type = "episode";
    target_id = fire_id ++ "/" ++ episode.episode_id;
    reason = p.reason;
    trace_id = call.trace_id;
    before = some (episode_snapshot episode);
    after = none;
    payload =
        object
          (("requested_status", text (status_value p.target_status)) ∷ ("cause", text cause) ∷ []);
  }

  -- A refusal that is audited: the audit row is committed before the exception.
  unfoldable pub refuse : String → Episode → Failure → Tx Registry TransitionResponse
  refuse cause episode e = do
    s ← get
    put (record s {
      ledger = record_operator_audit P call.actor (rejection_audit cause episode) s.ledger;
    })
    commit
    raise e

  abbrev snapshots : Episode → IncidentSeries → Value
  snapshots episode incident =
      object (("episode", episode_snapshot episode) ∷ ("incident", incident_snapshot incident) ∷ [])

  abbrev change_audit : Episode → IncidentSeries → Episode → IncidentSeries → Audit
  change_audit episode incident episode' incident' = record {
    action = "incident.status.changed";
    target_type = "episode";
    target_id = fire_id ++ "/" ++ episode'.episode_id;
    reason = p.reason;
    trace_id = call.trace_id;
    before = some (snapshots episode incident);
    after = some (snapshots episode' incident');
    payload = object (
        (
          "validation_basis_hash",
          if is_given p.validation_basis
              then optional (λ basis. text (sha256_hex P (text basis))) p.validation_basis
              else null,
        )
        ∷ ("public_note", optional text p.public_note)
        ∷ []);
  }

  abbrev change_event : Episode → Episode → Value
  change_event episode episode' = object (
      ("fire_id", text fire_id)
      ∷ ("episode_id", text episode'.episode_id)
      ∷ ("previous_status", text (status_value episode.status))
      ∷ ("status", text (status_value episode'.status))
      ∷ ("version", num episode'.version)
      ∷ [])

  abbrev pub response_of : Episode → Episode → TransitionResponse
  response_of episode episode' = record {
    fire_id = fire_id;
    episode_id = episode'.episode_id;
    previous_status = episode.status;
    status = episode'.status;
    version = episode'.version;
    review_required = episode'.review_required;
    trace_id = call.trace_id;
  }

  -- From the assignments to the outbox event.
  unfoldable pub apply_transition : IncidentSeries → Episode → Tx Registry TransitionResponse
  apply_transition incident episode = do
    s ← get
    let episode' = moved_episode p.target_status call.now episode
    let incident' = moved_incident p episode.status episode'.verification_state incident
    put (record s {
      episodes = put_episode episode' s.episodes;
      incidents = put_incident incident' s.incidents;
      ledger =
          emit_outbox P "incident.status_changed" "incident_series" fire_id call.trace_id
            call.idempotency_key (change_event episode episode')
            (record_operator_audit P call.actor (change_audit episode incident episode' incident')
              s.ledger);
    })
    pure (response_of episode episode')

  unfoldable pub carry_out : Verdict → IncidentSeries → Episode → Tx Registry TransitionResponse
  unfolding refuse apply_transition
  carry_out illegal_transition incident episode = refuse "illegal_transition" episode (
      conflict "illegal_state_transition" (
        "Transition "
        ++ status_value episode.status
        ++ " -> "
        ++ status_value p.target_status
        ++ " is not allowed."))
  carry_out insufficient_role incident episode =
      refuse "insufficient_role" episode
        (forbidden "The authenticated actor is not allowed to perform this transition.")
  carry_out basis_required incident episode = raise (
      conflict "validation_basis_required"
        "A documented validation_basis is required for ACTIVE_CONFIRMED.")
  carry_out allowed incident episode = apply_transition incident episode

  -- The body of the handler, after `find_replay`: from the version test on, from the lookup of the
  -- current episode on, from the test of the lookup on, and whole.
  abbrev pub checked : IncidentSeries → Episode → Tx Registry TransitionResponse
  checked incident episode =
      if episode.version == p.expected_version
      then carry_out (judge call.actor episode.status p) incident episode
      else raise (
          conflict_with "stale_episode_version" "The episode was modified by another operation."
            (object (("current_version", num episode.version) ∷ [])))

  abbrev pub on_incident : IncidentSeries → Tx Registry TransitionResponse
  on_incident incident = do
    s ← get
    episode ← lift (scalar_one (select (is_current_of incident.id) s.episodes))
    checked incident episode

  abbrev pub on_lookup : Option IncidentSeries → Tx Registry TransitionResponse
  on_lookup found = do incident ← lift (or_not_found "incident" fire_id found); on_incident incident

  unfoldable pub attempt : Tx Registry TransitionResponse
  attempt = do
    s ← get
    found ← lift (scalar_one_or_none (select (has_fire_id fire_id) s.incidents))
    on_lookup found

  module _ (validate : Value → Option TransitionResponse) where
    abbrev pub response_model : ResponseModel TransitionResponse
    response_model = record { dump = response_dump; validate = validate }

    unfoldable pub transition_incident : Tx Registry (Answer TransitionResponse)
    transition_incident =
        idempotent registry_ledger response_model (transition_endpoint fire_id) request_hash call
          200 attempt
