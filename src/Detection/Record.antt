-- ===== src/Detection/Record.antt =====
-- services/detection.py: `process_detection` from the row of the observation to the response.
use mathlib.Core.Option
use fireviewer_backend.Detection.Place.{Placement, observed_target, service_id}
use fireviewer_backend.Detection.Request.{DetectionRequest, DetectionResponse, Intake}
use fireviewer_backend.Doubles.{Settings}
use fireviewer_backend.Enums.{ActorType, corroborated, pending_review, same_verification, withheld}
use fireviewer_backend.Enums.Sources.{decision_value}
use fireviewer_backend.Evidence.Recalculate.{
  EvidencePolicyResult, Recalculated, became_corroborated, recalculate_episode_evidence,
}
use fireviewer_backend.Incident.Lifecycle.{put_episode, put_incident}
use fireviewer_backend.Incident.Rows.{
  Episode, IncidentSeries, Observation, Registry, Source, episode_snapshot, incident_snapshot,
  observation_snapshot, text_items,
}
use fireviewer_backend.Ledger.{Audit, Ledger, emit_outbox, record_audit}
use fireviewer_backend.Matching.Decide.{MatchResult}
use fireviewer_backend.Matching.Score.{ScoredCandidate}
use fireviewer_backend.Platform.{Platform, Value, array, num, object, optional, real, text}
use fireviewer_backend.Prelude.{List, Option, String, [], if◌then◌else◌, none, some, ℕ, ◌∷◌}
use fireviewer_backend.Reviews.Resolve.{row_after}

abbrev fire_of : Option (IncidentSeries × Episode) → Option String
fire_of pair = Option.map (λ (q : IncidentSeries × Episode). q.0.fire_id) pair

abbrev episode_of : Option (IncidentSeries × Episode) → Option String
episode_of pair = Option.map (λ (q : IncidentSeries × Episode). q.1.episode_id) pair

abbrev incident_key_of : Option (IncidentSeries × Episode) → Option ℕ
incident_key_of pair = Option.map (λ (q : IncidentSeries × Episode). q.0.id) pair

abbrev episode_key_of : Option (IncidentSeries × Episode) → Option ℕ
episode_key_of pair = Option.map (λ (q : IncidentSeries × Episode). q.1.id) pair

abbrev score_of : Option ScoredCandidate → Option ℕ
score_of best = Option.map (λ (b : ScoredCandidate). b.score) best

abbrev factors_of : Option ScoredCandidate → List (String × ℕ)
factors_of none = []
factors_of (some best) = best.factors

-- `attached.fire_id if attached else proposed.fire_id if proposed else observation_id`
abbrev aggregate_id_of :
    Option (IncidentSeries × Episode) → Option (IncidentSeries × Episode) → String → String
aggregate_id_of (some (i, e)) proposed observation_id = i.fire_id
aggregate_id_of none (some (i, e)) observation_id = i.fire_id
aggregate_id_of none none observation_id = observation_id

abbrev aggregate_type_of :
    Option (IncidentSeries × Episode) → Option (IncidentSeries × Episode) → String
aggregate_type_of none none = "observation"
aggregate_type_of _ _ = "incident_series"

-- What the recalculation leaves: the attached rows, and its result.
pub record Evaluated : Type 0 where
  pub attached : Option (IncidentSeries × Episode)
  pub result : Option EvidencePolicyResult
  pub registry : Registry

module _ (P : Platform) (settings : Settings) (p : DetectionRequest) (n : Intake) (hash : String)
    (source : Source) (m : MatchResult) where
  unfoldable pub new_observation : Placement → Observation
  new_observation placed = record {
    id = n.keys.observation_key;
    observation_id = n.observation_id;
    source_id = source.id;
    observed_at = p.observed_at;
    received_at = p.received_at;
    geometry_type = "Point";
    longitude = p.longitude;
    latitude = p.latitude;
    altitude_m = p.altitude_m;
    vertical_datum = p.vertical_datum;
    horizontal_uncertainty_m = p.horizontal_uncertainty_m;
    territory_code = p.territory_code;
    toponyms = p.toponyms;
    canonical_name_hint = p.canonical_name;
    evidence_hash = p.content_hash;
    evidence_license = p.license;
    external_reference = p.external_reference;
    request_hash = hash;
    verification_state = pending_review;
    public_spatial_mode = withheld;
    raw_purge_due_at = none;
    raw_purged_at = none;
    raw_retention_hold_reason = none;
    attached_incident_id = incident_key_of placed.attached;
    attached_episode_id = episode_key_of placed.attached;
    proposed_incident_id = incident_key_of placed.proposed;
    proposed_episode_id = episode_key_of placed.proposed;
    match_decision = m.decision;
    match_score = score_of m.best;
    margin_to_second_candidate = m.margin;
    match_factors = factors_of m.best;
    review_reasons = m.review_reasons;
    policy_id = settings.matching_policy_id;
    trace_id = n.trace_id;
    version = 1;
  }

  abbrev evidence_rows : IncidentSeries → Episode → Value
  evidence_rows incident episode =
      object (("incident", incident_snapshot incident) ∷ ("episode", episode_snapshot episode) ∷ [])

  abbrev proof_count : EvidencePolicyResult → String × Value
  proof_count r = ("independent_proof_count", num r.independent_proof_count)

  -- The audit and the event of an episode that reached the threshold.
  unfoldable pub announce : IncidentSeries → Episode → Recalculated → Ledger → Ledger
  announce incident episode r l =
      if became_corroborated r.result
      then emit_outbox P "incident.corroborated" "incident_series" r.incident.fire_id n.trace_id
          n.idempotency_key
          (object (
            ("fire_id", text r.incident.fire_id)
            ∷ ("episode_id", text r.episode.episode_id)
            ∷ proof_count r.result
            ∷ []))
          (record_audit P ActorType.system service_id
            (record {
              action = "incident.corroborated";
              target_type = "episode";
              target_id = observed_target r.incident r.episode;
              reason = "Independent corroborating evidence threshold reached.";
              trace_id = n.trace_id;
              before = some (evidence_rows incident episode);
              after = some (evidence_rows r.incident r.episode);
              payload = object (
                  ("threshold", num settings.corroboration_min_independent_proofs)
                  ∷ proof_count r.result
                  ∷ ("observation_ids", array (text_items r.result.selected_observation_ids))
                  ∷ []);
            })
            l)
      else l

  abbrev pub reevaluated : Registry → IncidentSeries → Episode → Recalculated
  reevaluated s incident episode =
      recalculate_episode_evidence settings.corroboration_min_independent_proofs n.now none
        s.sources incident episode s.observations

  -- The recalculation of the attached episode, if there is one.
  unfoldable pub evaluate : Option (IncidentSeries × Episode) → Registry → Evaluated
  unfolding announce
  evaluate none s = record { attached = none; result = none; registry = s }
  evaluate (some (incident, episode)) s =
      let r = reevaluated s incident episode in
      record {
        attached = some (r.incident, r.episode);
        result = some r.result;
        registry = record s {
          incidents = put_incident r.incident s.incidents;
          episodes = put_episode r.episode s.episodes;
          observations = r.observations;
          ledger = announce incident episode r s.ledger;
        };
      }

  abbrev processed_audit : Observation → Audit
  processed_audit o = record {
    action = "observation.processed";
    target_type = "observation";
    target_id = o.observation_id;
    reason = "Normalized observation processed by the versioned matching policy.";
    trace_id = n.trace_id;
    before = none;
    after = some (observation_snapshot o);
    payload = object (
        ("policy_id", text settings.matching_policy_id)
        ∷ ("decision", text (decision_value m.decision))
        ∷ ("score", optional real (score_of m.best))
        ∷ ("margin_to_second_candidate", optional real m.margin)
        ∷ ("review_reasons", array (text_items m.review_reasons))
        ∷ []);
  }

  abbrev processed_event :
      Observation → Option (IncidentSeries × Episode) → Option (IncidentSeries × Episode) → Value
  processed_event o attached proposed = object (
      ("observation_id", text o.observation_id)
      ∷ ("decision", text (decision_value m.decision))
      ∷ ("fire_id", optional text (fire_of attached))
      ∷ ("episode_id", optional text (episode_of attached))
      ∷ ("proposed_fire_id", optional text (fire_of proposed))
      ∷ ("proposed_episode_id", optional text (episode_of proposed))
      ∷ ("policy_id", text settings.matching_policy_id)
      ∷ [])

  abbrev confirmation_of : Option EvidencePolicyResult → String
  confirmation_of none = "pending"
  confirmation_of (some r) =
      if same_verification r.verification_state corroborated then "corroborated" else "pending"

  unfoldable pub detection_response :
      Observation → Evaluated → Option (IncidentSeries × Episode) → DetectionResponse
  detection_response o v proposed = record {
    observation_id = o.observation_id;
    decision = m.decision;
    fire_id = fire_of v.attached;
    episode_id = episode_of v.attached;
    proposed_fire_id = fire_of proposed;
    proposed_episode_id = episode_of proposed;
    score = score_of m.best;
    margin_to_second_candidate = m.margin;
    factors = factors_of m.best;
    distance_m = Option.map (λ (b : ScoredCandidate). b.distance_m) m.best;
    review_reasons = m.review_reasons;
    public_confirmation = confirmation_of v.result;
    policy_id = settings.matching_policy_id;
    trace_id = n.trace_id;
  }

  -- `o` is the observation's row after the recalculation.
  abbrev pub processed_ledger :
      Observation
      → Option (IncidentSeries × Episode)
      → Option (IncidentSeries × Episode)
      → Ledger
      → Ledger
  processed_ledger o attached proposed l =
      emit_outbox P "observation.processed" (aggregate_type_of attached proposed)
        (aggregate_id_of attached proposed o.observation_id) n.trace_id n.idempotency_key
        (processed_event o attached proposed)
        (record_audit P ActorType.public_source source.source_key (processed_audit o) l)

  abbrev pub with_observation : Placement → Registry
  with_observation placed = record placed.registry {
    observations = new_observation placed ∷ placed.registry.observations;
  }

  abbrev pub evaluated : Placement → Evaluated
  evaluated placed = evaluate placed.attached (with_observation placed)

  unfoldable pub record_observation : Placement → DetectionResponse × Registry
  unfolding new_observation evaluate detection_response
  record_observation placed =
      let v = evaluated placed in
      let o = row_after (new_observation placed) v.registry.observations in
      (
        detection_response o v placed.proposed,
        record v.registry {
          ledger = processed_ledger o v.attached placed.proposed v.registry.ledger;
        },
      )
