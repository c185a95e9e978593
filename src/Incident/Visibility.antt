-- ===== src/Incident/Visibility.antt =====
-- domain/public_visibility.py: what the public may see of an incident.
pub mod Policy
use fireviewer_backend.Enums.{
  IncidentStatus, PublicVisibility, VerificationState, active_confirmed, candidate, closed,
  corroborated, extinguished, limited, monitoring, public, same_status, same_verification,
  same_visibility, under_review, verified,
}
use fireviewer_backend.Prelude.{Bool, false, if◌then◌else◌, not, true, ◌&&◌, ◌||◌}

abbrev pub is_public_evidence : VerificationState → Bool
is_public_evidence corroborated = true
is_public_evidence verified = true
is_public_evidence _ = false

abbrev pub is_public_location_status : IncidentStatus → Bool
is_public_location_status candidate = true
is_public_location_status under_review = true
is_public_location_status active_confirmed = true
is_public_location_status monitoring = true
is_public_location_status extinguished = true
is_public_location_status closed = true
is_public_location_status _ = false

abbrev pub is_viewer_asset_status : IncidentStatus → Bool
is_viewer_asset_status active_confirmed = true
is_viewer_asset_status monitoring = true
is_viewer_asset_status extinguished = true
is_viewer_asset_status _ = false

unfoldable pub canonical_public_visibility : IncidentStatus → VerificationState → PublicVisibility
canonical_public_visibility status state =
    if same_status status IncidentStatus.suspended
    then PublicVisibility.suspended
    else if same_status status IncidentStatus.rejected || not (is_public_evidence state)
    then limited
    else public

unfoldable pub has_canonical_public_visibility :
    IncidentStatus → PublicVisibility → VerificationState → Bool
unfolding canonical_public_visibility
has_canonical_public_visibility status visibility state =
    same_visibility visibility (canonical_public_visibility status state)

unfoldable pub permits_public_location :
    IncidentStatus → PublicVisibility → VerificationState → Bool
unfolding has_canonical_public_visibility
permits_public_location status visibility state =
    same_visibility visibility public
    && is_public_evidence state
    && is_public_location_status status
    && has_canonical_public_visibility status visibility state

unfoldable pub permits_public_viewer_asset :
    IncidentStatus → PublicVisibility → VerificationState → Bool
unfolding has_canonical_public_visibility
permits_public_viewer_asset status visibility state =
    same_verification state verified
    && is_viewer_asset_status status
    && has_canonical_public_visibility status visibility state
