-- ===== src/Incident/Lifecycle/Rules.antt =====
-- What the table of transitions allows, and to whom.
use fireviewer_backend.Actor.{Actor, has_all_roles, has_any_role, has_role}
use fireviewer_backend.Enums.{IncidentStatus, active_confirmed, closed, extinguished}
use fireviewer_backend.Incident.Lifecycle.{role_ok}
use fireviewer_backend.Incident.StateMachine.{TransitionRule, get_transition_rule}
use fireviewer_backend.Prelude.{all, any, arith, inl, inr, refl, some, true, ◌≡◌, ◌⊎◌}

-- A move that the table has, and a sequence of moves.
pub data Move : IncidentStatus → IncidentStatus → Type 0 where
  move : {s t : IncidentStatus} {r : TransitionRule} → get_transition_rule s t ≡ some r → Move s t

pub data Course : IncidentStatus → IncidentStatus → Type 0 where
  stay : {s : IncidentStatus} → Course s s
  onward : {s t u : IncidentStatus} → Move s t → Course t u → Course s u

-- Whatever the state that it starts from, confirmation wants a documented basis, and the actor that
-- passes the role test holds the role `validator`.
pub confirmation_guard :
    (s : IncidentStatus) (actor : Actor) {r : TransitionRule}
    → get_transition_rule s active_confirmed ≡ some r
    → role_ok actor r ≡ true
    → (r.requires_validation_basis ≡ true) × (has_role actor.roles "validator" ≡ true)
unfolding get_transition_rule role_ok has_any_role has_all_roles any all
confirmation_guard s actor h holds = ground arith

-- Leaving suspension always takes the role `security_operator`.
pub resumption_guard :
    (t : IncidentStatus) (actor : Actor) {r : TransitionRule}
    → get_transition_rule IncidentStatus.suspended t ≡ some r
    → role_ok actor r ≡ true
    → has_role actor.roles "security_operator" ≡ true
unfolding get_transition_rule role_ok has_any_role has_all_roles any all
resumption_guard t actor h holds = ground arith

abbrev pub HasEnded : IncidentStatus → Type 0
HasEnded s = (s ≡ extinguished) ⊎ (s ≡ closed)

move_of_HasEnded :
    {s t : IncidentStatus} {r : TransitionRule}
    → get_transition_rule s t ≡ some r
    → HasEnded s
    → (t ≡ closed) ⊎ (t ≡ IncidentStatus.suspended)
unfolding get_transition_rule
move_of_HasEnded h e = ground arith

-- A state that the course is in, at its start, on its way or at its end.
abbrev pub Visits : IncidentStatus → {s t : IncidentStatus} → Course s t → Type 0
Visits q (stay {s}) = s ≡ q
Visits q (onward {s} step rest) = (s ≡ q) ⊎ Visits q rest

starts_at : {q s t : IncidentStatus} (c : Course s t) → s ≡ q → Visits q c
starts_at stay e = e
starts_at (onward step rest) e = inl e

-- Every course of allowed moves that leads from an extinguished or closed state to a state that is
-- neither, visits the suspended state.
pub ended_resumes_by_suspension :
    {s t : IncidentStatus} (c : Course s t)
    → HasEnded s
    → ¬ (HasEnded t)
    → Visits IncidentStatus.suspended c
ended_resumes_by_suspension stay e n = absurd (n e)
ended_resumes_by_suspension (onward (move h) rest) e n = elim (move_of_HasEnded h e) [
  | inl c ↦ inr (ended_resumes_by_suspension rest (inr c) n)
  | inr q ↦ inr (starts_at rest q)
]

-- A rejected episode stays rejected.
pub rejected_is_final : {s t : IncidentStatus} → Course s t → s ≡ IncidentStatus.rejected → t ≡ s
unfolding get_transition_rule
rejected_is_final stay e = refl
rejected_is_final (onward (move h) rest) e = ground arith
