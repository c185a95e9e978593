-- ===== src/Incident/Lifecycle.antt =====
-- services/transitions.py: the tests of `transition_incident` and its assignments to the rows.
pub mod Rules
use fireviewer_backend.Actor.{Actor, has_all_roles, has_any_role}
use fireviewer_backend.Call.{LedgerIn}
use fireviewer_backend.Enums.{
  IncidentStatus, VerificationState, active_confirmed, candidate, closed, extinguished, monitoring,
  same_status, status_value, under_review, verified,
}
use fireviewer_backend.Incident.Rows.{Episode, IncidentSeries, Registry}
use fireviewer_backend.Incident.StateMachine.{TransitionRule, get_transition_rule}
use fireviewer_backend.Incident.Visibility.{canonical_public_visibility}
use fireviewer_backend.Platform.{Fields, Value, bool, dict, end, field, num, object, text}
use fireviewer_backend.Prelude.{
  Bool, List, Option, String, [], false, if◌then◌else◌, is_given, is_some, none, not, refl, some,
  str_eq, true, update, ℕ, ◌&&◌, ◌+◌, ◌==◌, ◌||◌, ◌∷◌,
}

pub record TransitionRequest : Type 0 where
  pub target_status : IncidentStatus
  pub expected_version : ℕ
  pub reason : String
  pub public_note : Option String
  pub validation_basis : Option String

pub record TransitionResponse : Type 0 where
  pub fire_id : String
  pub episode_id : String
  pub previous_status : IncidentStatus
  pub status : IncidentStatus
  pub version : ℕ
  pub review_required : Bool
  pub trace_id : String

-- `exclude_none=True` leaves a key out.
abbrev given : String → Option String → Fields → Fields
given key none rest = rest
given key (some s) rest = field key (text s) rest

unfoldable pub request_dump : TransitionRequest → Value
request_dump p = dict (
    field "target_status" (text (status_value p.target_status)) (
      field "expected_version" (num p.expected_version) (
        field "reason" (text p.reason)
          (given "public_note" p.public_note (given "validation_basis" p.validation_basis end)))))

unfoldable pub response_dump : TransitionResponse → Value
response_dump r = object (
    ("fire_id", text r.fire_id)
    ∷ ("episode_id", text r.episode_id)
    ∷ ("previous_status", text (status_value r.previous_status))
    ∷ ("status", text (status_value r.status))
    ∷ ("version", num r.version)
    ∷ ("review_required", bool r.review_required)
    ∷ ("trace_id", text r.trace_id)
    ∷ [])

pub data Verdict : Type 0 where
  illegal_transition insufficient_role basis_required allowed : Verdict

unfoldable pub role_ok : Actor → TransitionRule → Bool
role_ok actor r =
    if r.require_all_roles
    then has_all_roles actor r.required_roles
    else has_any_role actor r.required_roles

abbrev pub judge_rule : Actor → Option String → Option TransitionRule → Verdict
judge_rule actor basis none = illegal_transition
judge_rule actor basis (some r) =
    if not (role_ok actor r)
    then insufficient_role
    else if r.requires_validation_basis && not (is_given basis)
    then basis_required
    else allowed

-- The tests of the handler, in its order.
unfoldable pub judge : Actor → IncidentStatus → TransitionRequest → Verdict
judge actor current p =
    judge_rule actor p.validation_basis (get_transition_rule current p.target_status)

-- The assignments to the episode that depend on the target.
unfoldable pub settle : IncidentStatus → ℕ → Episode → Episode
settle active_confirmed now e = record e {
  verification_state = verified;
  evidence_basis_at = some now;
  validated_at = some now;
  ended_at = none;
  review_required = false;
}
settle candidate now e = record e { review_required = true; ended_at = none }
settle under_review now e = record e { review_required = true; ended_at = none }
settle monitoring now e = record e { review_required = false; ended_at = none }
settle extinguished now e = record e { review_required = false; ended_at = some now }
settle closed now e = record e { review_required = false; ended_at = some now }
settle IncidentStatus.rejected now e = record e {
  verification_state = VerificationState.rejected;
  evidence_basis_at = none;
  review_required = false;
  ended_at = some now;
}
settle IncidentStatus.suspended now e = e

unfoldable pub moved_episode : IncidentStatus → ℕ → Episode → Episode
unfolding settle
moved_episode target now e =
    settle target now (record e { status = target; version = e.version + 1 })

abbrev keep_or_set : Option String → Option String → Option String
keep_or_set none old = old
keep_or_set (some s) old = some s

abbrev note_for_suspension : Option String → Option String
note_for_suspension note = if is_given note then note else some "Incident suspended pending review."

unfoldable pub next_note :
    IncidentStatus → IncidentStatus → Option String → Option String → Option String
next_note IncidentStatus.suspended previous note old = note_for_suspension note
next_note candidate previous note old = keep_or_set note old
next_note under_review previous note old = keep_or_set note old
next_note IncidentStatus.rejected previous note old = keep_or_set note old
next_note _ previous note old =
    if is_some note || same_status previous IncidentStatus.suspended then note else old

unfoldable pub moved_incident :
    TransitionRequest → IncidentStatus → VerificationState → IncidentSeries → IncidentSeries
moved_incident p previous state i = record i {
  public_visibility = canonical_public_visibility p.target_status state;
  public_note = next_note p.target_status previous p.public_note i.public_note;
  version = i.version + 1;
}

abbrev pub has_incident_key : ℕ → IncidentSeries → Bool
has_incident_key key i = i.id == key

abbrev pub has_episode_key : ℕ → Episode → Bool
has_episode_key key e = e.id == key

abbrev pub has_fire_id : String → IncidentSeries → Bool
has_fire_id fire_id i = str_eq i.fire_id fire_id

abbrev pub is_current_of : ℕ → Episode → Bool
is_current_of incident_id e = e.incident_id == incident_id && e.is_current

abbrev pub put_episode : Episode → List Episode → List Episode
put_episode e = update (λ row. row.id == e.id) (λ _. e)

abbrev pub put_incident : IncidentSeries → List IncidentSeries → List IncidentSeries
put_incident i = update (λ row. row.id == i.id) (λ _. i)

abbrev pub registry_ledger : LedgerIn Registry
registry_ledger = record {
  ledger = λ s. s.ledger;
  with_ledger = λ l s. record s { ledger = l };
  ledger-with_ledger = λ l s. refl;
}
