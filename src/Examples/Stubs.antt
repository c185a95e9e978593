-- ===== src/Examples/Stubs.antt =====
-- Stand-ins for what comes from outside: a digest that keeps the text, an encoder that keeps the first
-- text of a value, and a reader of dumped responses that undoes the dump.
use fireviewer_backend.Enums.{
  IncidentStatus, active_confirmed, candidate, closed, extinguished, monitoring, status_value,
  under_review,
}
use fireviewer_backend.Incident.Lifecycle.{TransitionResponse, response_dump}
use fireviewer_backend.Platform.{Platform, Value, bool, dict, end, field, num, text}
use fireviewer_backend.Prelude.{
  Bool, Option, String, if◌then◌else◌, none, refl, some, str_eq, ℕ, ◌≡◌,
}

first_text : Value → String
first_text (text s) = s
first_text (dict (field k v rest)) = k
first_text _ = "null"

unfoldable pub plain_platform : Platform
unfolding first_text
plain_platform = record {
  dumps = first_text;
  loads = text;
  sha256 = λ s. s;
  new_event_id = λ n. "event";
}

read_status : String → Option IncidentStatus
read_status s =
    if str_eq s "CANDIDATE"
    then some candidate
    else if str_eq s "UNDER_REVIEW"
    then some under_review
    else if str_eq s "ACTIVE_CONFIRMED"
    then some active_confirmed
    else if str_eq s "MONITORING"
    then some monitoring
    else if str_eq s "EXTINGUISHED"
    then some extinguished
    else if str_eq s "CLOSED"
    then some closed
    else if str_eq s "SUSPENDED"
    then some IncidentStatus.suspended
    else if str_eq s "REJECTED"
    then some IncidentStatus.rejected
    else none

read_status-status_value : (s : IncidentStatus) → read_status (status_value s) ≡ some s
unfolding read_status
read_status-status_value candidate = refl
read_status-status_value under_review = refl
read_status-status_value active_confirmed = refl
read_status-status_value monitoring = refl
read_status-status_value extinguished = refl
read_status-status_value closed = refl
read_status-status_value IncidentStatus.suspended = refl
read_status-status_value IncidentStatus.rejected = refl

both :
    String
    → String
    → ℕ
    → Bool
    → String
    → Option IncidentStatus
    → Option IncidentStatus
    → Option TransitionResponse
both f e v q t (some a) (some b) = some (record {
  fire_id = f;
  episode_id = e;
  previous_status = a;
  status = b;
  version = v;
  review_required = q;
  trace_id = t;
})
both f e v q t _ _ = none

unfoldable pub read_response : Value → Option TransitionResponse
unfolding both read_status
read_response
      (dict (
        field _ (text f) (
          field _ (text e) (
            field _
              (text a)
              (field _ (text b) (field _ (num v) (field _ (bool q) (field _ (text t) end)))))))) =
    both f e v q t (read_status a) (read_status b)
read_response _ = none

pub read_response-response_dump :
    (r : TransitionResponse) → read_response (response_dump r) ≡ some r
unfolding read_response response_dump both
read_response-response_dump r =
    rw (read_status-status_value r.previous_status) (rw (read_status-status_value r.status) refl)
