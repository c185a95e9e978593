-- ===== src/Detection/Process.antt =====
-- services/detection.py: `process_detection` from the source to the commit.
use fireviewer_backend.Call.{validated}
use fireviewer_backend.Detection.Place.{place}
use fireviewer_backend.Detection.Record.{record_observation}
use fireviewer_backend.Detection.Request.{
  DetectionOutcome, DetectionRequest, DetectionResponse, Intake, detection_response_dump,
  validate_times,
}
use fireviewer_backend.Detection.Sources.{resolve_source}
use fireviewer_backend.Doubles.{Doubles, Settings, TextTools}
use fireviewer_backend.Enums.Sources.{MatchDecision}
use fireviewer_backend.Geospatial.{BoundingBox, bbox_for_point}
use fireviewer_backend.Incident.Rows.{Registry, Source}
use fireviewer_backend.Ledger.{Replay, find_replay, store_response}
use fireviewer_backend.Matching.Candidates.{SpatialIndex, find_candidates}
use fireviewer_backend.Matching.Decide.{MatchResult, match_observation}
use fireviewer_backend.Matching.Score.{Candidate, ObservationForMatch}
use fireviewer_backend.Platform.{Platform, Value, sha256_hex}
use fireviewer_backend.Prelude.{Bool, List, Option, String, false, none, some, true, ℕ}
use fireviewer_backend.Session.{
  Result, Tx, commit, get, lift, ok, pure, put, rollback, ◌>>=◌, ◌>>◌, ◌then_read◌,
}

abbrev pub detection_endpoint : String
detection_endpoint = "POST /api/v1/incident/detect"

abbrev pub status_of : MatchDecision → ℕ
status_of MatchDecision.create = 201
status_of _ = 200

module _ (P : Platform) (F : Doubles) (T : TextTools) (X : SpatialIndex) (settings : Settings)
    (p : DetectionRequest) (n : Intake) where
  abbrev pub detection_hash : String
  detection_hash = sha256_hex P n.request_document

  unfoldable pub search_box : BoundingBox
  search_box = bbox_for_point F p.longitude p.latitude (
      F.add (F.add p.horizontal_uncertainty_m settings.matching_max_candidate_distance_m)
        settings.matching_max_incident_uncertainty_m)

  unfoldable pub observation_for_match : Source → ObservationForMatch
  observation_for_match source = record {
    longitude = p.longitude;
    latitude = p.latitude;
    uncertainty_m = p.horizontal_uncertainty_m;
    observed_at = p.observed_at;
    toponyms = p.toponyms;
    canonical_name_hint = p.canonical_name;
    source_trust = source.trust;
  }

  abbrev pub candidates_of : Registry → List Candidate × Bool
  candidates_of s =
      find_candidates X search_box settings.matching_max_candidates s.incidents s.episodes

  -- The search and the match.
  unfoldable pub match_of : Source → Registry → MatchResult
  unfolding search_box observation_for_match
  match_of source s =
      let (candidates, overflow) = candidates_of s in
      match_observation F settings T (observation_for_match source) candidates overflow

  -- From the test of the times to the response, before it is stored.
  unfoldable pub process : Source → Registry → Result ((DetectionResponse × Registry) × ℕ)
  unfolding match_of
  process source s = validate_times settings n.checked_at p then_read (λ times.
      let m = match_of source s in
      place P F settings p n m.decision m.best s then_read (λ placed.
        ok
          (record_observation P settings p n detection_hash source m placed, status_of m.decision)))

  -- `store_response`, with the response as it is dumped.
  abbrev pub stored : DetectionResponse → ℕ → Registry → Registry
  stored answer status s = record s {
    ledger =
        store_response detection_endpoint n.idempotency_key detection_hash status
          (detection_response_dump answer) n.trace_id n.stored_at n.idempotency_retention_hours
          s.ledger;
  }

  unfoldable pub detect_body : Source → Tx Registry DetectionOutcome
  unfolding process
  detect_body source = do
    s ← get
    done ← lift (process source s)
    put (stored done.0.0 done.1 done.0.1)
    commit
    pure (record { response = done.0.0; status_code = done.1; replayed = false })

  module _ (validate : Value → Option DetectionResponse) where
    abbrev replay_outcome : Replay → Tx Registry DetectionOutcome
    replay_outcome r = do
      rollback
      answer ← lift (validated (validate r.response_body))
      pure (record { response = answer; status_code = r.response_status; replayed = true })

    abbrev pub on_replay : Source → Option Replay → Tx Registry DetectionOutcome
    on_replay source none = detect_body source
    on_replay source (some r) = replay_outcome r

    unfoldable pub after_source : Source → Tx Registry DetectionOutcome
    unfolding detect_body
    after_source source = do
      s ← get
      found ←
          lift
            (find_replay detection_endpoint n.idempotency_key detection_hash n.replay_at s.ledger)
      put (record s { ledger = found.1 })
      on_replay source found.0

    unfoldable pub process_detection : Tx Registry DetectionOutcome
    unfolding after_source
    process_detection = resolve_source P p n >>= after_source
