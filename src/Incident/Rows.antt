-- ===== src/Incident/Rows.antt =====
-- The rows of the registry (db/models.py) and their audit snapshots (services/common.py). An instant
-- is a number of microseconds; a float is its rank among the finite doubles.
use fireviewer_backend.Enums.{
  EvidenceSpatialMode, IncidentStatus, PublicVisibility, VerificationState, mode_value,
  status_value, verification_value, visibility_value,
}
use fireviewer_backend.Enums.Sources.{
  MatchDecision, SourceTrust, SourceType, decision_value, source_type_value, trust_value,
}
use fireviewer_backend.Ledger.{Ledger}
use fireviewer_backend.Platform.{
  Items, Value, array, bool, item, nil, num, object, optional, real, stamp, text,
}
use fireviewer_backend.Prelude.{Bool, List, Option, String, [], ℕ, ◌∷◌}

pub record IncidentSeries : Type 0 where
  pub id : ℕ
  pub fire_id : String
  pub territory_code : String
  pub sequence : ℕ
  pub canonical_name : Option String
  pub reference_lon : ℕ
  pub reference_lat : ℕ
  pub horizontal_uncertainty_m : ℕ
  pub bbox_min_lon : ℕ
  pub bbox_max_lon : ℕ
  pub bbox_min_lat : ℕ
  pub bbox_max_lat : ℕ
  pub public_visibility : PublicVisibility
  pub public_note : Option String
  pub version : ℕ

pub record Episode : Type 0 where
  pub id : ℕ
  pub incident_id : ℕ
  pub episode_id : String
  pub ordinal : ℕ
  pub status : IncidentStatus
  pub verification_state : VerificationState
  pub corroborating_source_count : ℕ
  pub evidence_basis_at : Option ℕ
  pub estimated_area_ha : Option ℕ
  pub evacuation_established : Bool
  pub evacuation_basis : Option String
  pub review_required : Bool
  pub is_current : Bool
  pub confidence_policy : String
  pub started_at : ℕ
  pub last_observed_at : ℕ
  pub validated_at : Option ℕ
  pub ended_at : Option ℕ
  pub version : ℕ

pub record Observation : Type 0 where
  pub id : ℕ
  pub observation_id : String
  pub source_id : ℕ
  pub observed_at : ℕ
  pub received_at : ℕ
  pub geometry_type : String
  pub longitude : ℕ
  pub latitude : ℕ
  pub altitude_m : Option ℕ
  pub vertical_datum : Option String
  pub horizontal_uncertainty_m : ℕ
  pub territory_code : String
  pub toponyms : List String
  pub canonical_name_hint : Option String
  pub evidence_hash : String
  pub evidence_license : String
  pub external_reference : Option String
  pub request_hash : String
  pub verification_state : VerificationState
  pub public_spatial_mode : EvidenceSpatialMode
  pub raw_purge_due_at : Option ℕ
  pub raw_purged_at : Option ℕ
  pub raw_retention_hold_reason : Option String
  pub attached_incident_id : Option ℕ
  pub attached_episode_id : Option ℕ
  pub proposed_incident_id : Option ℕ
  pub proposed_episode_id : Option ℕ
  pub match_decision : MatchDecision
  pub match_score : Option ℕ
  pub margin_to_second_candidate : Option ℕ
  pub match_factors : List (String × ℕ)
  pub review_reasons : List String
  pub policy_id : String
  pub trace_id : String
  pub version : ℕ

pub record Source : Type 0 where
  pub id : ℕ
  pub source_key : String
  pub source_type : SourceType
  pub trust : SourceTrust
  pub display_name : Option String
  pub public_display_name : Option String
  pub public_license : Option String
  pub public_reference_url : Option String
  pub public_transformations : List String
  pub credential_hash : Option String
  pub enabled : Bool

pub record FireIdCounter : Type 0 where
  pub territory_code : String
  pub next_sequence : ℕ

pub record Registry : Type 0 where
  pub incidents : List IncidentSeries
  pub episodes : List Episode
  pub observations : List Observation
  pub sources : List Source
  pub counters : List FireIdCounter
  pub ledger : Ledger

abbrev pub text_items : List String → Items
text_items [] = nil
text_items (s ∷ ss) = item (text s) (text_items ss)

unfoldable pub source_snapshot : Source → Value
source_snapshot s = object (
    ("source_key", text s.source_key)
    ∷ ("source_type", text (source_type_value s.source_type))
    ∷ ("trust", text (trust_value s.trust))
    ∷ ("public_display_name", optional text s.public_display_name)
    ∷ ("public_license", optional text s.public_license)
    ∷ ("public_reference_url", optional text s.public_reference_url)
    ∷ ("public_transformations", array (text_items s.public_transformations))
    ∷ ("enabled", bool s.enabled)
    ∷ [])

-- What names a row and its place.
abbrev pub episode_identity : Episode → ℕ × ℕ × Bool
episode_identity e = (e.id, e.incident_id, e.is_current)

abbrev pub incident_identity : IncidentSeries → ℕ × String × ℕ
incident_identity i = (i.id, i.territory_code, i.sequence)

unfoldable pub incident_snapshot : IncidentSeries → Value
incident_snapshot i = object (
    ("fire_id", text i.fire_id)
    ∷ ("public_visibility", text (visibility_value i.public_visibility))
    ∷ ("public_note", optional text i.public_note)
    ∷ ("version", num i.version)
    ∷ [])

unfoldable pub episode_snapshot : Episode → Value
episode_snapshot e = object (
    ("episode_id", text e.episode_id)
    ∷ ("status", text (status_value e.status))
    ∷ ("verification_state", text (verification_value e.verification_state))
    ∷ ("corroborating_source_count", num e.corroborating_source_count)
    ∷ ("evidence_basis_at", optional stamp e.evidence_basis_at)
    ∷ ("estimated_area_ha", optional real e.estimated_area_ha)
    ∷ ("evacuation_established", bool e.evacuation_established)
    ∷ ("review_required", bool e.review_required)
    ∷ ("is_current", bool e.is_current)
    ∷ ("started_at", stamp e.started_at)
    ∷ ("last_observed_at", stamp e.last_observed_at)
    ∷ ("validated_at", optional stamp e.validated_at)
    ∷ ("ended_at", optional stamp e.ended_at)
    ∷ ("version", num e.version)
    ∷ [])

unfoldable pub observation_snapshot : Observation → Value
observation_snapshot o = object (
    ("observation_id", text o.observation_id)
    ∷ ("source_id", num o.source_id)
    ∷ ("observed_at", stamp o.observed_at)
    ∷ ("received_at", stamp o.received_at)
    ∷ ("evidence_hash", text o.evidence_hash)
    ∷ ("evidence_license", text o.evidence_license)
    ∷ ("verification_state", text (verification_value o.verification_state))
    ∷ ("public_spatial_mode", text (mode_value o.public_spatial_mode))
    ∷ ("attached_incident_id", optional num o.attached_incident_id)
    ∷ ("attached_episode_id", optional num o.attached_episode_id)
    ∷ ("proposed_incident_id", optional num o.proposed_incident_id)
    ∷ ("proposed_episode_id", optional num o.proposed_episode_id)
    ∷ ("match_decision", text (decision_value o.match_decision))
    ∷ ("raw_purged_at", optional stamp o.raw_purged_at)
    ∷ ("version", num o.version)
    ∷ [])
