-- ===== src/Examples/Intake.antt =====
-- A partner's observation beside the small registry of the other examples.
use fireviewer_backend.Detection.Guard.{
  IsAcceptedSource, IsAuthenticated, resolve_source-IsAcceptedSource,
  resolve_source-IsAuthenticated,
}
use fireviewer_backend.Detection.Place.{create_placement, place}
use fireviewer_backend.Detection.Process.{
  after_source, detect_body, match_of, observation_for_match, process, process_detection,
  search_box,
}
use fireviewer_backend.Detection.Record.{record_observation}
use fireviewer_backend.Detection.Request.{
  DetectionOutcome, DetectionRequest, DetectionResponse, Intake, validate_times,
}
use fireviewer_backend.Detection.Soundness.{process_detection-Sound}
use fireviewer_backend.Detection.Sources.{
  credential_required, credential_valid, known_source, refuse_source, resolve_source,
}
use fireviewer_backend.Enums.Sources.{SourceTrust, SourceType}
use fireviewer_backend.Examples.Matches.{plain_texts, plane, policy}
use fireviewer_backend.Examples.Reviewing.{any_index, keys, pending, pending-Sound}
use fireviewer_backend.Examples.Stubs.{plain_platform}
use fireviewer_backend.Geospatial.{combine_uncertainties_m, haversine_m}
use fireviewer_backend.Incident.Rows.{Registry, Source}
use fireviewer_backend.Incident.Sound.{Sound}
use fireviewer_backend.Ledger.{find_replay}
use fireviewer_backend.Matching.Candidates.{find_candidates, joined}
use fireviewer_backend.Matching.Decide.{decide, match_observation, ranks_before, reasons_of}
use fireviewer_backend.Matching.Score.{score_candidate, source_score, time_score, toponym_score}
use fireviewer_backend.Platform.{Value, dict, end}
use fireviewer_backend.Prelude.{
  Bool, Option, String, [], false, none, refl, select, some, sorted, true, ℕ, ◌∷◌, ◌≡◌,
}
use fireviewer_backend.Session.{Outcome, durable_of, raised, request, returned, scalar_one_or_none}

abbrev partner : Source
partner = record {
  id = 3;
  source_key = "cam-7";
  source_type = SourceType.sensor;
  trust = SourceTrust.partner;
  display_name = none;
  public_display_name = none;
  public_license = none;
  public_reference_url = none;
  public_transformations = [];
  credential_hash = some "secret";
  enabled = true;
}

abbrev observed_by_partner : DetectionRequest
observed_by_partner = record {
  source_id = "cam-7";
  source_type = SourceType.sensor;
  source_trust = SourceTrust.partner;
  observed_at = 100;
  received_at = 110;
  longitude = 500;
  latitude = 500;
  horizontal_uncertainty_m = 1;
  altitude_m = none;
  vertical_datum = none;
  content_hash = "sha256:ab";
  license = "CC0";
  external_reference = none;
  territory_code = "2A";
  toponyms = [];
  canonical_name = none;
}

abbrev intake_with : Option String → Intake
intake_with token = record {
  request_document = dict end;
  idempotency_key = "key-9";
  source_token = token;
  trace_id = "trace";
  idempotency_retention_hours = 24;
  observation_id = "OBS-2";
  keys = keys;
  replay_at = 120;
  checked_at = 121;
  now = 122;
  stored_at = 123;
}

abbrev with_partner : Registry
with_partner = record pending { sources = partner ∷ [] }

accepted_run :
    request
      (resolve_source plain_platform observed_by_partner (intake_with (some "secret")))
      with_partner
    ≡ returned partner with_partner with_partner
unfolding resolve_source known_source credential_required credential_valid scalar_one_or_none select
    plain_platform
accepted_run = refl

guard_example :
    IsAcceptedSource plain_platform observed_by_partner
      (intake_with (some "secret"))
      with_partner
      partner
guard_example =
    resolve_source-IsAcceptedSource plain_platform observed_by_partner (intake_with (some "secret"))
      with_partner partner with_partner with_partner accepted_run

authenticated_example :
    IsAuthenticated plain_platform observed_by_partner
      (intake_with (some "secret"))
      with_partner
      partner
authenticated_example =
    resolve_source-IsAuthenticated plain_platform observed_by_partner (intake_with (some "secret"))
      with_partner partner with_partner with_partner refl accepted_run

-- Without the credential the intake is refused.
is_refused : Outcome Registry Source → Bool
is_refused (returned a d w) = false
is_refused (raised e d) = true

refused_test :
    is_refused
      (request (resolve_source plain_platform observed_by_partner (intake_with none)) with_partner)
    ≡ true
unfolding is_refused resolve_source known_source refuse_source credential_required credential_valid
    scalar_one_or_none select
refused_test = refl

abbrev no_replay : Value → Option DetectionResponse
no_replay v = none

abbrev detected : Outcome Registry DetectionOutcome
detected =
    request
      (process_detection plain_platform plane plain_texts any_index policy observed_by_partner
        (intake_with (some "secret")) no_replay)
      with_partner

status_given : Outcome Registry DetectionOutcome → ℕ
status_given (returned a d w) = a.status_code
status_given (raised e d) = 0

detected_test : status_given detected ≡ 201
unfolding status_given process_detection after_source detect_body process match_of resolve_source
    known_source credential_required credential_valid scalar_one_or_none select find_replay
    validate_times search_box observation_for_match find_candidates joined match_observation sorted
    ranks_before score_candidate haversine_m combine_uncertainties_m time_score toponym_score
    source_score reasons_of decide place create_placement record_observation plain_platform
detected_test = refl

with_partner-Sound : Sound with_partner
with_partner-Sound = pending-Sound

detected_example : Sound (durable_of detected)
detected_example =
    process_detection-Sound plain_platform plane plain_texts any_index policy observed_by_partner
      (intake_with (some "secret")) no_replay with_partner ((refl, tt), (refl, tt))
      with_partner-Sound

abbrev unsigned : Outcome Registry DetectionOutcome
unsigned =
    request
      (process_detection plain_platform plane plain_texts any_index policy observed_by_partner
        (intake_with none) no_replay)
      with_partner
