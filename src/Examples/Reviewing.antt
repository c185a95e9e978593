-- ===== src/Examples/Reviewing.antt =====
-- The creation of an incident by a review of a pending observation, its repetition, and a refusal.
use fireviewer_backend.Call.{Answer, idempotent}
use fireviewer_backend.Courses.{after_request, nothing_more, review_request, transition_request}
use fireviewer_backend.Courses.Soundness.{History-Sound}
use fireviewer_backend.Detection.Request.{DetectionResponse}
use fireviewer_backend.Enums.{
  VerificationState, candidate, corroborated, pending_review, unverified, verification_value,
  verified,
}
use fireviewer_backend.Enums.Sources.{ReviewResolutionAction, resolution_value}
use fireviewer_backend.Errors.{Failure, validation_error}
use fireviewer_backend.Examples.Matches.{plain_texts, plane, policy}
use fireviewer_backend.Examples.Proofs.{observed}
use fireviewer_backend.Examples.Stubs.{plain_platform, read_response}
use fireviewer_backend.Examples.Transitions.{
  call_of, confirmation, episode, incident, registry, validator,
}
use fireviewer_backend.Incident.Create.{
  Keys, NewIncident, create_incident_and_episode, create_reactivation_episode, next_sequence_of,
}
use fireviewer_backend.Incident.Rows.{Registry}
use fireviewer_backend.Incident.Sound.{Sound}
use fireviewer_backend.Incident.Sound.Created.{create-Sound}
use fireviewer_backend.Incident.Sound.Reopened.{reactivate-Sound}
use fireviewer_backend.Incident.Transition.{transition_incident}
use fireviewer_backend.Incident.Visibility.{canonical_public_visibility}
use fireviewer_backend.Ledger.{find_replay}
use fireviewer_backend.Matching.Candidates.{SpatialIndex}
use fireviewer_backend.Platform.{Value, dict, get_field, num, text}
use fireviewer_backend.Prelude.{
  Option, String, [], any, arith, false, if◌then◌else◌, inr, none, refl, select, some, str_eq, true,
  ℕ, ◌∷◌, ◌≡◌,
}
use fireviewer_backend.Reviews.Actions.{decide_action}
use fireviewer_backend.Reviews.Outcomes.{resolve_review-raised}
use fireviewer_backend.Reviews.Request.{
  ReviewResolutionRequest, ReviewResolutionResponse, review_response_dump,
}
use fireviewer_backend.Reviews.Resolve.{resolve, resolve_body, resolve_review, review_observation}
use fireviewer_backend.Reviews.Retried.{resolve_review-retry}
use fireviewer_backend.Reviews.Soundness.{resolve_review-Sound}
use fireviewer_backend.Session.{Outcome, durable_of, raised, request, returned, scalar_one_or_none}

-- A reader of dumped review responses that undoes the dump.
abbrev text_of : Option Value → Option String
text_of (some (text s)) = some s
text_of _ = none

abbrev number_of : Option Value → ℕ
number_of (some (num n)) = n
number_of _ = 0

abbrev text_or : Option String → String
text_or (some s) = s
text_or none = ""

read_action : String → ReviewResolutionAction
read_action s =
    if str_eq s "attach"
    then ReviewResolutionAction.attach
    else if str_eq s "create"
    then ReviewResolutionAction.create
    else ReviewResolutionAction.reject

read_state : String → VerificationState
read_state s =
    if str_eq s "UNVERIFIED"
    then unverified
    else if str_eq s "PENDING_REVIEW"
    then pending_review
    else if str_eq s "CORROBORATED"
    then corroborated
    else if str_eq s "VERIFIED"
    then verified
    else VerificationState.rejected

unfoldable read_review : Value → Option ReviewResolutionResponse
unfolding read_action read_state
read_review (dict f) = some (record {
  observation_id = text_or (text_of (get_field "observation_id" f));
  action = read_action (text_or (text_of (get_field "action" f)));
  verification_state = read_state (text_or (text_of (get_field "verification_state" f)));
  fire_id = text_of (get_field "fire_id" f);
  episode_id = text_of (get_field "episode_id" f);
  version = number_of (get_field "version" f);
  trace_id = text_or (text_of (get_field "trace_id" f));
})
read_review _ = none

read_action-resolution_value : (a : ReviewResolutionAction) → read_action (resolution_value a) ≡ a
unfolding read_action
read_action-resolution_value ReviewResolutionAction.attach = refl
read_action-resolution_value ReviewResolutionAction.create = refl
read_action-resolution_value ReviewResolutionAction.reject = refl

read_state-verification_value : (v : VerificationState) → read_state (verification_value v) ≡ v
unfolding read_state
read_state-verification_value unverified = refl
read_state-verification_value pending_review = refl
read_state-verification_value corroborated = refl
read_state-verification_value verified = refl
read_state-verification_value VerificationState.rejected = refl

rebuilt :
    (o t : String) (a : ReviewResolutionAction) (v : VerificationState) (f e : Option String)
    (n : ℕ)
    → let r : ReviewResolutionResponse = record {
      observation_id = o;
      action = a;
      verification_state = v;
      fire_id = f;
      episode_id = e;
      version = n;
      trace_id = t;
    } in
      read_review (review_response_dump r) ≡ some r
unfolding read_review review_response_dump get_field
rebuilt o t a v none none n =
    rw (read_action-resolution_value a, read_state-verification_value v) refl
rebuilt o t a v none (some e) n =
    rw (read_action-resolution_value a, read_state-verification_value v) refl
rebuilt o t a v (some f) none n =
    rw (read_action-resolution_value a, read_state-verification_value v) refl
rebuilt o t a v (some f) (some e) n =
    rw (read_action-resolution_value a, read_state-verification_value v) refl

round_trip : (r : ReviewResolutionResponse) → read_review (review_response_dump r) ≡ some r
round_trip r =
    rebuilt r.observation_id r.trace_id r.action r.verification_state r.fire_id r.episode_id
      r.version

abbrev pub pending : Registry
pending = record registry { observations = observed 1 "OBS-1" "aa" ∷ [] }

abbrev pub keys : Keys
keys = record { incident_key = 2; episode_key = 8; source_key = 3; observation_key = 2 }

abbrev creation : ReviewResolutionRequest
creation = record {
  action = ReviewResolutionAction.create;
  expected_version = 1;
  reason = "a fire of its own";
  target_fire_id = none;
  publish_spatial_evidence = false;
}

abbrev review_at :
    ReviewResolutionRequest → ℕ → Registry → Outcome Registry (Answer ReviewResolutionResponse)
review_at p at db =
    request
      (resolve_review plain_platform plane policy keys "OBS-1" p (call_of validator at) read_review)
      db

abbrev given_response :
    Outcome Registry (Answer ReviewResolutionResponse) → ReviewResolutionResponse
given_response (returned a d w) = a.response
given_response (raised e d) = record {
  observation_id = "";
  action = ReviewResolutionAction.reject;
  verification_state = unverified;
  fire_id = none;
  episode_id = none;
  version = 0;
  trace_id = "";
}

abbrev created_store : Registry
created_store = durable_of (review_at creation 100 pending)

abbrev created_response : ReviewResolutionResponse
created_response = given_response (review_at creation 100 pending)

created_run :
    review_at creation 100 pending
    ≡ returned
        (record { response = created_response; replayed = false })
        created_store
        created_store
unfolding resolve_review resolve_body idempotent find_replay scalar_one_or_none select resolve
    review_observation decide_action
created_run = refl

review_again :
    review_at creation 200 created_store
    ≡ returned (record { response = created_response; replayed = true }) created_store created_store
review_again =
    resolve_review-retry plain_platform plane policy keys keys "OBS-1" creation
      (call_of validator 100) (call_of validator 200) read_review pending created_store
      created_store created_response round_trip refl refl (ground arith) created_run

pub pending-Sound : Sound pending
unfolding any next_sequence_of canonical_public_visibility
pending-Sound = record {
  coherent = (((λ _. inr refl), tt), tt);
  one_current = (tt, tt);
  owned = (refl, tt);
  episode_keys = (tt, tt);
  incident_keys = (tt, tt);
  counted = (omega arith, tt);
  numbers = (tt, tt);
}

created_example : Sound created_store
created_example =
    resolve_review-Sound plain_platform plane policy keys "OBS-1" creation (call_of validator 100)
      read_review pending created_store created_store created_response ((refl, tt), (refl, tt))
      (λ r. cc) pending-Sound created_run

-- A stale version is refused.
abbrev stale : ReviewResolutionRequest
stale = record creation { expected_version = 4 }

abbrev failure_of : Outcome Registry (Answer ReviewResolutionResponse) → Failure
failure_of (returned a d w) = validation_error
failure_of (raised e d) = e

stale_run :
    review_at stale 100 pending
    ≡ raised (failure_of (review_at stale 100 pending)) (durable_of (review_at stale 100 pending))
unfolding resolve_review resolve_body idempotent find_replay scalar_one_or_none select resolve
    review_observation
stale_run = refl

raised_example : durable_of (review_at stale 100 pending) ≡ pending
raised_example =
    resolve_review-raised plain_platform plane policy keys "OBS-1" stale (call_of validator 100)
      read_review pending (durable_of (review_at stale 100 pending))
      (failure_of (review_at stale 100 pending)) stale_run

abbrev pub any_index : SpatialIndex
any_index = record { near = λ box i. true; recent = λ i j. true }

abbrev no_detection : Value → Option DetectionResponse
no_detection v = none

history_example : Sound (
    durable_of (
      request
        (transition_incident plain_platform "FR-2A-000001" confirmation
          (call_of validator 300)
          read_response)
        created_store))
history_example =
    History-Sound plain_platform plane plain_texts any_index policy read_response read_review
      no_detection
      (after_request
        (review_request keys "OBS-1" creation (call_of validator 100) ((refl, tt), (refl, tt))
          (λ r. cc) refl)
        (after_request (transition_request "FR-2A-000001" confirmation (call_of validator 300) refl)
          (nothing_more refl)))
      pending-Sound

new_fire : NewIncident
new_fire = record {
  territory_code = "2A";
  longitude = 10;
  latitude = 10;
  uncertainty_m = 1;
  canonical_name = none;
  observed_at = 100;
  policy_id = "v1";
  initial_status = candidate;
}

numbered_example : Sound (create_incident_and_episode plane keys new_fire pending).1
numbered_example = create-Sound plane keys new_fire pending (refl, tt) (refl, tt) pending-Sound

reactivated_example : Sound (create_reactivation_episode keys incident episode 100 "v1" pending).1
unfolding any
reactivated_example =
    reactivate-Sound keys incident episode 100 "v1" pending ((λ _. refl), tt) ((λ _. refl), tt)
      ((λ _. refl), tt) refl refl (refl, tt) pending-Sound
