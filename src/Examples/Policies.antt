-- ===== src/Examples/Policies.antt =====
-- The tables of the state machine and of the visibility policy, at single entries.
use fireviewer_backend.Actor.{Actor, has_all_roles, has_any_role, has_role}
use fireviewer_backend.Enums.{
  ActorType, IncidentStatus, active_confirmed, closed, extinguished, monitoring, public,
  under_review, verified,
}
use fireviewer_backend.Incident.Lifecycle.{role_ok}
use fireviewer_backend.Incident.Lifecycle.Rules.{
  Course, Visits, confirmation_guard, ended_resumes_by_suspension, move, onward, rejected_is_final,
  resumption_guard, stay,
}
use fireviewer_backend.Incident.StateMachine.{TransitionRule, get_transition_rule}
use fireviewer_backend.Incident.Visibility.{permits_public_location, permits_public_viewer_asset}
use fireviewer_backend.Incident.Visibility.Policy.{viewer_asset_implies_location}
use fireviewer_backend.Prelude.{String, [], all, any, arith, false, inl, none, refl, true, ◌∷◌, ◌≡◌}

abbrev validator : Actor
validator = record {
  actor_id = "alice";
  roles = "validator" ∷ "security_operator" ∷ [];
  actor_type = ActorType.operator;
  csrf_token = none;
}

abbrev confirming : TransitionRule
confirming = record {
  target = active_confirmed;
  required_roles = "validator" ∷ [];
  requires_validation_basis = true;
  require_all_roles = false;
}

abbrev resuming : TransitionRule
resuming = record {
  target = monitoring;
  required_roles = "security_operator" ∷ "validator" ∷ [];
  requires_validation_basis = false;
  require_all_roles = true;
}

confirmation_example :
    (confirming.requires_validation_basis ≡ true) × (has_role validator.roles "validator" ≡ true)
unfolding get_transition_rule role_ok has_any_role has_role any
confirmation_example = confirmation_guard under_review validator {r = confirming} refl refl

resumption_example : has_role validator.roles "security_operator" ≡ true
unfolding get_transition_rule role_ok has_all_roles has_role any all
resumption_example = resumption_guard monitoring validator {r = resuming} refl refl

abbrev rule_to : IncidentStatus → String → TransitionRule
rule_to target role = record {
  target = target;
  required_roles = role ∷ [];
  requires_validation_basis = false;
  require_all_roles = false;
}

-- Extinguished, closed, suspended, under review.
reopened : Course extinguished under_review
unfolding get_transition_rule
reopened = onward {t = closed} (move {r = rule_to closed "validator"} refl) (
    onward {t = IncidentStatus.suspended}
      (move {r = rule_to IncidentStatus.suspended "security_operator"} refl)
      (onward {t = under_review} (move {r = rule_to under_review "security_operator"} refl) stay))

reopened_example : Visits IncidentStatus.suspended reopened
reopened_example = ended_resumes_by_suspension reopened (inl refl) (λ e. ground arith)

rejected_example : IncidentStatus.rejected ≡ IncidentStatus.rejected
rejected_example = rejected_is_final stay refl

viewer_example : permits_public_location monitoring public verified ≡ true
unfolding permits_public_viewer_asset
viewer_example = viewer_asset_implies_location monitoring public verified refl
