-- ===== src/Reviews/Request.antt =====
-- services/reviews.py and services/retention.py: the request, the response and the decisions on the
-- observation's own row.
use fireviewer_backend.Enums.{VerificationState, exact, verification_value, verified, withheld}
use fireviewer_backend.Enums.Sources.{MatchDecision, ReviewResolutionAction, resolution_value}
use fireviewer_backend.Incident.Rows.{Episode, IncidentSeries, Observation}
use fireviewer_backend.Platform.{Fields, Value, bool, dict, end, field, num, text}
use fireviewer_backend.Prelude.{
  Bool, List, Option, String, [], false, if◌then◌else◌, is_given, none, some, str_eq, true, ℕ, ◌∷◌,
}
use Prim.Native.String.{◌++◌}

pub record ReviewResolutionRequest : Type 0 where
  pub action : ReviewResolutionAction
  pub expected_version : ℕ
  pub reason : String
  pub target_fire_id : Option String
  pub publish_spatial_evidence : Bool

pub record ReviewResolutionResponse : Type 0 where
  pub observation_id : String
  pub action : ReviewResolutionAction
  pub verification_state : VerificationState
  pub fire_id : Option String
  pub episode_id : Option String
  pub version : ℕ
  pub trace_id : String

-- `exclude_none=True` leaves a key out.
abbrev given : String → Option String → Fields → Fields
given key none rest = rest
given key (some s) rest = field key (text s) rest

unfoldable pub review_request_dump : ReviewResolutionRequest → Value
review_request_dump p = dict (
    field "action" (text (resolution_value p.action)) (
      field "expected_version" (num p.expected_version) (
        field "reason" (text p.reason) (
          given "target_fire_id" p.target_fire_id
            (field "publish_spatial_evidence" (bool p.publish_spatial_evidence) end)))))

unfoldable pub review_response_dump : ReviewResolutionResponse → Value
review_response_dump r = dict (
    field "observation_id" (text r.observation_id) (
      field "action" (text (resolution_value r.action)) (
        field "verification_state" (text (verification_value r.verification_state)) (
          given "fire_id" r.fire_id (
            given "episode_id" r.episode_id
              (field "version" (num r.version) (field "trace_id" (text r.trace_id) end)))))))

abbrev pub review_endpoint : String → String
review_endpoint observation_id =
    "POST /api/v1/operator/observations/" ++ observation_id ++ "/resolve"

abbrev pub has_observation_id : String → Observation → Bool
has_observation_id observation_id o = str_eq o.observation_id observation_id

-- `verification_state in {VERIFIED, REJECTED}`
abbrev pub is_resolved : VerificationState → Bool
is_resolved verified = true
is_resolved VerificationState.rejected = true
is_resolved _ = false

-- `purge_observation_transient_metadata`
unfoldable pub purged : ℕ → Observation → Observation
purged decided_at o =
    let due = record o { raw_purge_due_at = some decided_at } in
    if is_given o.raw_retention_hold_reason then due else record due {
      toponyms = [];
      canonical_name_hint = none;
      external_reference = none;
      raw_purged_at = some decided_at;
    }

unfoldable pub rejected_observation : Observation → Observation
rejected_observation o = record o {
  verification_state = VerificationState.rejected;
  public_spatial_mode = withheld;
}

-- The assignments that CREATE and ATTACH share.
unfoldable pub attached_observation :
    MatchDecision → Bool → IncidentSeries → Episode → Observation → Observation
attached_observation decision publish incident episode o = record o {
  attached_incident_id = some incident.id;
  attached_episode_id = some episode.id;
  proposed_incident_id = none;
  proposed_episode_id = none;
  match_decision = decision;
  verification_state = verified;
  public_spatial_mode = if publish then exact else withheld;
  review_reasons = [];
}

abbrev first_name : List String → Option String
first_name [] = none
first_name (t ∷ ts) = some t

-- `canonical_name_hint or (toponyms[0] if toponyms else None)`
unfoldable pub name_of : Option String → List String → Option String
name_of hint toponyms = if is_given hint then hint else first_name toponyms
