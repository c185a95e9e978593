-- ===== src/Courses/Soundness.antt =====
-- The tables of the registry stay sound over any history of transitions, reviews and detections.
use fireviewer_backend.Call.{Answer, Call}
use fireviewer_backend.Call.Unchanged.{idempotent-replayed}
use fireviewer_backend.Courses.{
  History, Request, after_request, detection_request, nothing_more, review_request,
  transition_request,
}
use fireviewer_backend.Detection.Request.{DetectionResponse}
use fireviewer_backend.Detection.Soundness.{process_detection-Sound}
use fireviewer_backend.Doubles.{Doubles, Settings, TextTools}
use fireviewer_backend.Enums.{
  IncidentStatus, active_confirmed, candidate, closed, extinguished, monitoring, under_review,
}
use fireviewer_backend.Errors.{Failure}
use fireviewer_backend.Incident.Lifecycle.{
  TransitionRequest, TransitionResponse, moved_episode, moved_incident, registry_ledger, settle,
}
use fireviewer_backend.Incident.Rows.{
  Episode, FireIdCounter, IncidentSeries, Registry, episode_identity,
}
use fireviewer_backend.Incident.Sound.{IsSound, Sound}
use fireviewer_backend.Incident.Sound.Targets.{lookup-IsTarget, written-Sound}
use fireviewer_backend.Incident.Transition.{
  attempt, request_hash, response_model, transition_endpoint, transition_incident,
}
use fireviewer_backend.Incident.Transition.Accepted.{transition_incident-Accepted}
use fireviewer_backend.Incident.Transition.Refused.{transition_incident-Untouched}
use fireviewer_backend.Incident.Visibility.{canonical_public_visibility}
use fireviewer_backend.Matching.Candidates.{SpatialIndex}
use fireviewer_backend.Platform.{Platform, Value}
use fireviewer_backend.Prelude.{
  Bool-cases, List, Option, String, ap, false, inl, inr, refl, subst, sym, true, ℕ, ◌∙◌, ◌≡◌,
}
use fireviewer_backend.Reviews.Outcomes.{resolve_review-raised}
use fireviewer_backend.Reviews.Request.{ReviewResolutionResponse, review_endpoint}
use fireviewer_backend.Reviews.Resolve.{resolve_body, resolve_review, review_hash, review_model}
use fireviewer_backend.Reviews.Soundness.{resolve_review-Sound}
use fireviewer_backend.Session.{Outcome, durable_of, raised, request, returned}

-- A move keeps the place of the episode and gives it the target.
moved :
    (target : IncidentStatus) (now : ℕ) (e : Episode)
    → (episode_identity (moved_episode target now e) ≡ episode_identity e)
      × ((moved_episode target now e).status ≡ target)
unfolding moved_episode settle
moved candidate now e = (refl, refl)
moved under_review now e = (refl, refl)
moved active_confirmed now e = (refl, refl)
moved monitoring now e = (refl, refl)
moved extinguished now e = (refl, refl)
moved closed now e = (refl, refl)
moved IncidentStatus.suspended now e = (refl, refl)
moved IncidentStatus.rejected now e = (refl, refl)

tables :
    {is js : List IncidentSeries} {es fs : List Episode} {cs ds : List FireIdCounter}
    → js ≡ is
    → fs ≡ es
    → ds ≡ cs
    → IsSound is es cs
    → IsSound js fs ds
tables i e c s =
    subst (λ (q : List IncidentSeries × List Episode × List FireIdCounter). IsSound q.0 q.1 q.2)
      (λ k. (sym i k, sym e k, sym c k)) s

-- Three cases of an outcome: a fresh answer, a replay, an exception.
by_outcome :
    {R : Type 0} (x o : Outcome Registry (Answer R))
    → x ≡ o
    → ((d w : Registry) (r : R)
        → x ≡ returned (record { response = r; replayed = false }) d w
        → Sound d)
    → ((d w : Registry) (r : R)
        → x ≡ returned (record { response = r; replayed = true }) d w
        → Sound d)
    → ((d : Registry) (e : Failure) → x ≡ raised e d → Sound d)
    → Sound (durable_of o)
by_outcome x (returned a d w) h fresh replay error = elim (Bool-cases a.replayed) [
  | inl e ↦
      replay d w a.response
        (h ∙ ap (λ b. returned (record { response = a.response; replayed = b }) d w) e)
  | inr e ↦
      fresh d w a.response
        (h ∙ ap (λ b. returned (record { response = a.response; replayed = b }) d w) e)
]
by_outcome x (raised e d) h fresh replay error = error d e h

-- A transition that is answered afresh.
transition_incident-Sound :
    (P : Platform) (fire_id : String) (p : TransitionRequest) (call : Call)
    (validate : Value → Option TransitionResponse) (db d w : Registry) (r : TransitionResponse)
    → Sound db
    → request (transition_incident P fire_id p call validate) db
      ≡ returned (record { response = r; replayed = false }) d w
    → Sound d
unfolding moved_incident
transition_incident-Sound P fire_id p call validate db d w r sound h =
    let a = transition_incident-Accepted P fire_id p call validate db d w r h in
    let t = lookup-IsTarget db.incidents db.episodes db.counters fire_id a.found a.current sound in
    let e' : Episode = moved_episode p.target_status call.now a.episode in
    let i' : IncidentSeries = moved_incident p a.episode.status e'.verification_state a.incident in
    let (same, status) = moved p.target_status call.now a.episode in
    let visible : i'.public_visibility
        ≡ canonical_public_visibility e'.status e'.verification_state =
      ap (λ t. canonical_public_visibility t e'.verification_state) (sym status) in
    let after =
      written-Sound db.incidents db.episodes db.counters a.incident i' a.episode e' t refl same
        visible sound in
    tables a.incidents a.episodes a.counters after

module _ (P : Platform) (F : Doubles) (T : TextTools) (X : SpatialIndex) (settings : Settings)
    (read_transition : Value → Option TransitionResponse)
    (read_review : Value → Option ReviewResolutionResponse)
    (read_detection : Value → Option DetectionResponse) where
  Request-Sound :
      {db db' : Registry}
      → Request P F T X settings read_transition read_review read_detection db db'
      → Sound db
      → Sound db'
  Request-Sound {db} (transition_request fire_id p call e) sound = subst Sound (sym e) (
      by_outcome (request (transition_incident P fire_id p call read_transition) db) _ refl
        (λ d w r h. transition_incident-Sound P fire_id p call read_transition db d w r sound h)
        (λ d w r h.
          subst Sound
            (sym (
              idempotent-replayed registry_ledger (response_model P fire_id p call read_transition)
                (transition_endpoint fire_id) (request_hash P fire_id p call) call 200
                (attempt P fire_id p call) db d w r (unfold transition_incident in h)))
            sound)
        (λ d x h.
          let u = transition_incident-Untouched P fire_id p call read_transition db d x h in
          tables u.incidents u.episodes u.counters sound))
  Request-Sound {db} (review_request keys observation_id p call fresh rejects e) sound =
      subst Sound (sym e) (
        by_outcome (request (resolve_review P F settings keys observation_id p call read_review) db)
          _ refl
          (λ d w r h.
            resolve_review-Sound P F settings keys observation_id p call read_review db d w r fresh
              rejects sound h)
          (λ d w r h.
            subst Sound
              (sym (
                idempotent-replayed registry_ledger
                  (review_model P F settings keys observation_id p call read_review)
                  (review_endpoint observation_id)
                  (review_hash P F settings keys observation_id p call) call 200
                  (resolve_body P F settings keys observation_id p call) db d w r
                  (unfold resolve_review in h)))
              sound)
          (λ d x h.
            subst Sound
              (sym (
                resolve_review-raised P F settings keys observation_id p call read_review db d x h))
              sound))
  Request-Sound {db} (detection_request p n fresh e) sound =
      subst Sound (sym e)
        (process_detection-Sound P F T X settings p n read_detection db fresh sound)

  -- Over a history of transitions, reviews and detections, sound tables stay sound, whatever the
  -- outcomes. The history gives that the keys a review or a detection inserts are new and that a
  -- rejected observation is attached to no episode but the current one of its incident.
  pub History-Sound :
      {db db' : Registry}
      → History P F T X settings read_transition read_review read_detection db db'
      → Sound db
      → Sound db'
  History-Sound (nothing_more e) sound = subst Sound (sym e) sound
  History-Sound (after_request step rest) sound = History-Sound rest (Request-Sound step sound)
