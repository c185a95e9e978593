-- ===== src/Incident/Visibility/Policy.antt =====
-- The public-visibility policy: the viewer shows no more than the public location allows.
use fireviewer_backend.Enums.{IncidentStatus, PublicVisibility, VerificationState}
use fireviewer_backend.Incident.Visibility.{permits_public_location, permits_public_viewer_asset}
use fireviewer_backend.Prelude.{arith, true, ◌≡◌}

-- An incident whose 3D asset may be shown is one whose location may be shown.
pub viewer_asset_implies_location :
    (s : IncidentStatus) (v : PublicVisibility) (e : VerificationState)
    → permits_public_viewer_asset s v e ≡ true
    → permits_public_location s v e ≡ true
unfolding permits_public_viewer_asset permits_public_location
viewer_asset_implies_location s v e h = ground arith
