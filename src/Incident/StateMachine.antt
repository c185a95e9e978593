-- ===== src/Incident/StateMachine.antt =====
-- domain/state_machine.py: the allowed transitions between incident states.
use fireviewer_backend.Enums.{
  IncidentStatus, active_confirmed, candidate, closed, extinguished, monitoring, rejected,
  same_status, suspended, under_review,
}
use fireviewer_backend.Prelude.{
  Bool, List, Option, String, [], false, if◌then◌else◌, none, some, true, ◌∷◌,
}

pub record TransitionRule : Type 0 where
  pub target : IncidentStatus
  pub required_roles : List String
  pub requires_validation_basis : Bool
  pub require_all_roles : Bool

abbrev analyst_or_validator : List String
analyst_or_validator = "analyst" ∷ "validator" ∷ []

abbrev validator : List String
validator = "validator" ∷ []

abbrev security_operator : List String
security_operator = "security_operator" ∷ []

abbrev both_roles : List String
both_roles = "security_operator" ∷ "validator" ∷ []

-- A rule with the default flags, one that wants a validation basis, one that wants all its roles,
-- and one that wants both.
abbrev rule : IncidentStatus → List String → TransitionRule
rule target roles = record {
  target = target;
  required_roles = roles;
  requires_validation_basis = false;
  require_all_roles = false;
}

abbrev rule_with_basis : IncidentStatus → List String → TransitionRule
rule_with_basis target roles = record (rule target roles) { requires_validation_basis = true }

abbrev rule_for_all : IncidentStatus → List String → TransitionRule
rule_for_all target roles = record (rule target roles) { require_all_roles = true }

abbrev rule_with_basis_for_all : IncidentStatus → List String → TransitionRule
rule_with_basis_for_all target roles = record (rule target roles) {
  requires_validation_basis = true;
  require_all_roles = true;
}

unfoldable pub transitions : IncidentStatus → List TransitionRule
transitions candidate =
    rule under_review analyst_or_validator
    ∷ rule rejected validator
    ∷ rule_with_basis active_confirmed validator
    ∷ rule suspended security_operator
    ∷ []
transitions under_review =
    rule_with_basis active_confirmed validator
    ∷ rule rejected validator
    ∷ rule suspended security_operator
    ∷ []
transitions active_confirmed =
    rule monitoring validator ∷ rule extinguished validator ∷ rule suspended security_operator ∷ []
transitions monitoring =
    rule_with_basis active_confirmed validator
    ∷ rule extinguished validator
    ∷ rule suspended security_operator
    ∷ []
transitions extinguished = rule closed validator ∷ rule suspended security_operator ∷ []
transitions closed = rule suspended security_operator ∷ []
transitions suspended =
    rule candidate security_operator
    ∷ rule under_review security_operator
    ∷ rule_with_basis_for_all active_confirmed both_roles
    ∷ rule_for_all monitoring both_roles
    ∷ rule_for_all extinguished both_roles
    ∷ rule_for_all closed both_roles
    ∷ []
transitions rejected = []

-- `next((rule for rule in rules if rule.target == target), None)`
unfoldable pub first_rule : IncidentStatus → List TransitionRule → Option TransitionRule
first_rule target [] = none
first_rule target (r ∷ rest) =
    if same_status r.target target then some r else first_rule target rest

unfoldable pub get_transition_rule : IncidentStatus → IncidentStatus → Option TransitionRule
unfolding transitions first_rule
get_transition_rule current target = first_rule target (transitions current)
