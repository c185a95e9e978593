-- ===== src/Reviews/Resolve.antt =====
-- services/reviews.py: the recalculation, the audits and the response, and the whole handler.
use mathlib.Core.Option
use fireviewer_backend.Call.{Answer, Call, ResponseModel, idempotent}
use fireviewer_backend.Doubles.{Doubles, Settings}
use fireviewer_backend.Enums.{same_verification, verified}
use fireviewer_backend.Enums.Sources.{ReviewResolutionAction, resolution_value}
use fireviewer_backend.Errors.{Failure, conflict, conflict_with}
use fireviewer_backend.Evidence.Recalculate.{Recalculated, recalculate_episode_evidence}
use fireviewer_backend.Incident.Create.{Keys}
use fireviewer_backend.Incident.Lifecycle.{put_episode, put_incident, registry_ledger}
use fireviewer_backend.Incident.Rows.{
  Episode, IncidentSeries, Observation, Registry, episode_snapshot, incident_snapshot,
  observation_snapshot,
}
use fireviewer_backend.Ledger.{Audit, Ledger, emit_outbox, record_operator_audit}
use fireviewer_backend.Platform.{Platform, Value, num, object, optional, sha256_hex, text}
use fireviewer_backend.Prelude.{
  List, Option, String, [], if◌then◌else◌, none, select, some, str_append, update, ℕ, ◌++◌, ◌+◌,
  ◌==◌, ◌∷◌,
}
use fireviewer_backend.Reviews.Actions.{
  Change, Decided, advanced, created, decide_action, reactivated, unchanged,
}
use fireviewer_backend.Reviews.Request.{
  ReviewResolutionRequest, ReviewResolutionResponse, has_observation_id, is_resolved, purged,
  review_endpoint, review_request_dump, review_response_dump,
}
use fireviewer_backend.Session.{
  Result, Tx, err, get, lift, ok, or_not_found, pure, put, scalar_one_or_none, ◌>>=◌, ◌>>◌,
  ◌then_read◌,
}

-- The observation's row after the recalculation.
abbrev pub row_after : Observation → List Observation → Observation
row_after o [] = o
row_after o (row ∷ rows) = let rest = row_after o rows in if row.id == o.id then row else rest

module _ (P : Platform) (F : Doubles) (settings : Settings) (keys : Keys) (observation_id : String)
    (p : ReviewResolutionRequest) (call : Call) where
  abbrev pub review_hash : String
  review_hash =
      sha256_hex P
        (object (("actor_id", text call.actor.actor_id) ∷ ("payload", review_request_dump p) ∷ []))

  abbrev audit_of : String → String → String → Option Value → Option Value → Value → Audit
  audit_of action target_type target_id before after payload = record {
    action = action;
    target_type = target_type;
    target_id = target_id;
    reason = p.reason;
    trace_id = call.trace_id;
    before = before;
    after = after;
    payload = payload;
  }

  abbrev resolution : String × Value
  resolution = ("resolution", text (resolution_value p.action))

  abbrev episode_target : IncidentSeries → Episode → String
  episode_target incident episode = str_append incident.fire_id (str_append "/" episode.episode_id)

  -- The audits of the change of the incident and the episode, in their order.
  unfoldable pub change_audits : Change → IncidentSeries → Episode → List Audit
  change_audits unchanged incident episode = []
  change_audits created incident episode =
      audit_of "incident.created" "incident_series" incident.fire_id none
        (some (incident_snapshot incident))
        (object (resolution ∷ ("episode_id", text episode.episode_id) ∷ []))
      ∷ audit_of "episode.created" "episode" (episode_target incident episode) none
          (some (episode_snapshot episode))
          (object (resolution ∷ ("fire_id", text incident.fire_id) ∷ []))
      ∷ []
  change_audits (reactivated old_incident current previous) incident episode =
      audit_of "episode.reactivation.previous_closed" "episode" (episode_target incident previous)
        (some (episode_snapshot current)) (some (episode_snapshot previous))
        (object (resolution ∷ ("next_episode_id", text episode.episode_id) ∷ []))
      ∷ audit_of "incident.reactivation.updated" "incident_series" incident.fire_id
          (some (incident_snapshot old_incident)) (some (incident_snapshot incident))
          (object (resolution ∷ ("episode_id", text episode.episode_id) ∷ []))
      ∷ audit_of "episode.reactivation.created" "episode" (episode_target incident episode) none
          (some (episode_snapshot episode))
          (object (resolution ∷ ("fire_id", text incident.fire_id) ∷ []))
      ∷ []
  change_audits (advanced current) incident episode =
      audit_of "episode.timeline.advanced" "episode" (episode_target incident episode)
        (some (episode_snapshot current)) (some (episode_snapshot episode))
        (object (resolution ∷ []))
      ∷ []

  abbrev both_snapshots : IncidentSeries → Episode → Value
  both_snapshots incident episode =
      object (("episode", episode_snapshot episode) ∷ ("incident", incident_snapshot incident) ∷ [])

  -- The audit of the evidence, from the rows before the recalculation and its result.
  unfoldable pub evidence_audits : IncidentSeries → Episode → Recalculated → List Audit
  evidence_audits incident episode r =
      if same_verification r.result.previous_state r.result.verification_state
      then []
      else audit_of
          (if same_verification r.result.verification_state verified
            then "episode.evidence.verified"
            else "episode.corroboration.withdrawn")
          "episode" (episode_target r.incident r.episode) (some (both_snapshots incident episode))
          (some (both_snapshots r.incident r.episode))
          (object
            (resolution ∷ ("independent_proof_count", num r.result.independent_proof_count) ∷ []))
        ∷ []

  abbrev pub resolved_audit : Observation → Observation → Audit
  resolved_audit before after =
      audit_of "observation.review.resolved" "observation" after.observation_id
        (some (observation_snapshot before)) (some (observation_snapshot after))
        (object (resolution ∷ []))

  unfoldable pub record_all : List Audit → Ledger → Ledger
  record_all [] l = l
  record_all (a ∷ rest) l = record_all rest (record_operator_audit P call.actor a l)

  abbrev pub put_observation : Observation → List Observation → List Observation
  put_observation o = update (λ row. row.id == o.id) (λ _. o)

  abbrev pub human_validated_at : ReviewResolutionAction → Option ℕ
  human_validated_at ReviewResolutionAction.reject = none
  human_validated_at _ = some call.now

  abbrev review_event : Observation → Option IncidentSeries → Option Episode → Value
  review_event o incident episode = object (
      ("observation_id", text o.observation_id)
      ∷ resolution
      ∷ ("fire_id", optional (λ (i : IncidentSeries). text i.fire_id) incident)
      ∷ ("episode_id", optional (λ (e : Episode). text e.episode_id) episode)
      ∷ [])

  abbrev review_response :
      Observation → Option IncidentSeries → Option Episode → ReviewResolutionResponse
  review_response o incident episode = record {
    observation_id = o.observation_id;
    action = p.action;
    verification_state = o.verification_state;
    fire_id = Option.map (λ (i : IncidentSeries). i.fire_id) incident;
    episode_id = Option.map (λ (e : Episode). e.episode_id) episode;
    version = o.version;
    trace_id = call.trace_id;
  }

  -- From the audits to the response: `before` and `after` are the observation's row.
  unfoldable pub conclude :
      List Audit
      → Observation
      → Observation
      → Option IncidentSeries
      → Option Episode
      → Registry
      → ReviewResolutionResponse × Registry
  unfolding record_all
  conclude audits before after incident episode s = (
    review_response after incident episode,
    record s {
      ledger =
          emit_outbox P "observation.review_resolved" "observation" after.observation_id
            call.trace_id call.idempotency_key (review_event after incident episode)
            (record_all (audits ++ (resolved_audit before after ∷ [])) s.ledger);
    },
  )

  abbrev pub decided_row : Decided → Observation
  decided_row d = purged call.now (record d.observation { version = d.observation.version + 1 })

  abbrev pub recalculated : Registry → List Observation → IncidentSeries → Episode → Recalculated
  recalculated s rows incident episode =
      recalculate_episode_evidence settings.corroboration_min_independent_proofs call.now
        (human_validated_at p.action) s.sources incident episode rows

  abbrev pub written : Registry → Recalculated → Registry
  written s r = record s {
    incidents = put_incident r.incident s.incidents;
    episodes = put_episode r.episode s.episodes;
    observations = r.observations;
  }

  -- After the branch on the action.
  unfoldable pub finish :
      Observation
      → Decided
      → Option (IncidentSeries × Episode)
      → ReviewResolutionResponse × Registry
  unfolding conclude change_audits evidence_audits
  finish before d none =
      let o = decided_row d in
      let rows = put_observation o d.registry.observations in
      conclude [] before o none none (record d.registry { observations = rows })
  finish before d (some (incident, episode)) =
      let o = decided_row d in
      let rows = put_observation o d.registry.observations in
      let r = recalculated d.registry rows incident episode in
      conclude (change_audits d.change r.incident r.episode ++ evidence_audits incident episode r)
        before (row_after o r.observations) (some r.incident) (some r.episode)
        (written d.registry r)

  abbrev already_resolved : Failure
  already_resolved =
      conflict "review_already_resolved" "The observation review has already been resolved."

  abbrev stale_version : Observation → Failure
  stale_version o =
      conflict_with "stale_observation_version" "The observation was modified by another operation."
        (object (("current_version", num o.version) ∷ []))

  -- From the version test on.
  unfoldable pub review_observation :
      Registry → Observation → Result (ReviewResolutionResponse × Registry)
  unfolding finish
  review_observation s o =
      if o.version == p.expected_version
      then (if is_resolved o.verification_state
          then err already_resolved
          else (decide_action F settings keys p p.action o s
              then_read (λ d. ok (finish o d d.target))))
      else err (stale_version o)

  unfoldable pub resolve : Registry → Result (ReviewResolutionResponse × Registry)
  unfolding review_observation
  resolve s =
      scalar_one_or_none (select (has_observation_id observation_id) s.observations)
      then_read (λ found.
          or_not_found "observation" observation_id found then_read (review_observation s))

  -- The body of the handler, which commits nothing of its own.
  unfoldable pub resolve_body : Tx Registry ReviewResolutionResponse
  resolve_body = do s ← get; answer ← lift (resolve s); put answer.1; pure answer.0

  module _ (validate : Value → Option ReviewResolutionResponse) where
    abbrev pub review_model : ResponseModel ReviewResolutionResponse
    review_model = record { dump = review_response_dump; validate = validate }

    unfoldable pub resolve_review : Tx Registry (Answer ReviewResolutionResponse)
    unfolding resolve_body
    resolve_review =
        idempotent registry_ledger review_model (review_endpoint observation_id) review_hash call
          200 resolve_body
