-- ===== src/Detection/Request.antt =====
-- services/detection.py: the request (domain/schemas.py), the readings of the clock, and the response.
use mathlib.Core.Option
use fireviewer_backend.Doubles.{Settings}
use fireviewer_backend.Enums.Sources.{MatchDecision, SourceTrust, SourceType, decision_value}
use fireviewer_backend.Errors.{Failure, domain}
use fireviewer_backend.Incident.Create.{Keys}
use fireviewer_backend.Incident.Rows.{text_items}
use fireviewer_backend.Platform.{Fields, Value, array, dict, end, field, real, text}
use fireviewer_backend.Prelude.{
  Bool, List, Option, String, [], if◌then◌else◌, ltb, none, some, ℕ, ◌*◌, ◌+◌, ◌||◌, ◌∷◌,
}
use fireviewer_backend.Session.{Result, err, ok}

pub record DetectionRequest : Type 0 where
  pub source_id : String
  pub source_type : SourceType
  pub source_trust : SourceTrust
  pub observed_at : ℕ
  pub received_at : ℕ
  pub longitude : ℕ
  pub latitude : ℕ
  pub horizontal_uncertainty_m : ℕ
  pub altitude_m : Option ℕ
  pub vertical_datum : Option String
  pub content_hash : String
  pub license : String
  pub external_reference : Option String
  pub territory_code : String
  pub toponyms : List String
  pub canonical_name : Option String

-- What else a request brings: `payload.model_dump(mode="json", exclude_none=True)`, which the
-- pydantic library makes of the payload, the keyword arguments, the identifier that `new_observation_id` draws,
-- the keys of the rows that it inserts, and the successive results of `utcnow()` in `find_replay`,
-- `_validate_times`, the recalculation and `store_response`.
pub record Intake : Type 0 where
  pub request_document : Value
  pub idempotency_key : String
  pub source_token : Option String
  pub trace_id : String
  pub idempotency_retention_hours : ℕ
  pub observation_id : String
  pub keys : Keys
  pub replay_at : ℕ
  pub checked_at : ℕ
  pub now : ℕ
  pub stored_at : ℕ

pub record DetectionResponse : Type 0 where
  pub observation_id : String
  pub decision : MatchDecision
  pub fire_id : Option String
  pub episode_id : Option String
  pub proposed_fire_id : Option String
  pub proposed_episode_id : Option String
  pub score : Option ℕ
  pub margin_to_second_candidate : Option ℕ
  pub factors : List (String × ℕ)
  pub distance_m : Option ℕ
  pub review_reasons : List String
  pub public_confirmation : String
  pub policy_id : String
  pub trace_id : String

pub record DetectionOutcome : Type 0 where
  pub response : DetectionResponse
  pub status_code : ℕ
  pub replayed : Bool

abbrev given_value : String → Option Value → Fields → Fields
given_value key none rest = rest
given_value key (some v) rest = field key v rest

abbrev factor_fields : List (String × ℕ) → Fields
factor_fields [] = end
factor_fields ((k, v) ∷ rest) = field k (real v) (factor_fields rest)

unfoldable pub detection_response_dump : DetectionResponse → Value
detection_response_dump r = dict (
    field "observation_id" (text r.observation_id) (
      field "decision" (text (decision_value r.decision)) (
        given_value "fire_id" (Option.map text r.fire_id) (
          given_value "episode_id" (Option.map text r.episode_id) (
            given_value "proposed_fire_id" (Option.map text r.proposed_fire_id) (
              given_value "proposed_episode_id" (Option.map text r.proposed_episode_id) (
                given_value "score" (Option.map real r.score) (
                  given_value "margin_to_second_candidate"
                    (Option.map real r.margin_to_second_candidate)
                    (field "factors" (dict (factor_fields r.factors)) (
                      given_value "distance_m" (Option.map real r.distance_m) (
                        field "review_reasons" (array (text_items r.review_reasons)) (
                          field "public_confirmation" (text r.public_confirmation) (
                            field "policy_id" (text r.policy_id)
                              (field "trace_id" (text r.trace_id) end))))))))))))))

abbrev second_us : ℕ
second_us = 1000000

abbrev unprocessable : String → String → String → Failure
unprocessable code title detail =
    domain
      (record { status_code = 422; code = code; title = title; detail = detail; extra = dict end })

-- `_validate_times`; `now` is the result of `utcnow()`.
unfoldable pub validate_times : Settings → ℕ → DetectionRequest → Result (ℕ × ℕ)
validate_times settings now p =
    let skew = settings.max_clock_skew_seconds * second_us in
    if ltb (now + skew) p.observed_at || ltb (now + skew) p.received_at
    then err (
        unprocessable "future_timestamp" "Invalid timestamp"
          "observed_at and received_at cannot be materially in the future.")
    else if ltb (p.received_at + skew) p.observed_at
    then err (
        unprocessable "received_before_observed" "Invalid timestamp order"
          "received_at cannot precede observed_at beyond the configured clock skew.")
    else ok (p.observed_at, p.received_at)
