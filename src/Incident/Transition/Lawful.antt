-- ===== src/Incident/Transition/Lawful.antt =====
-- services/transitions.py: a transition that is answered afresh obeyed the rules of the registry and
-- wrote what it promises, told without the handler's own tests and assignments.
-- Who may make the move and with what: the table has it, the actor holds one of the roles of its rule,
-- or all of them where the rule says so, and gives a basis where the rule wants one. A
-- confirmation always takes a validator and a basis, a suspension and its end a security operator, and
-- nothing leaves the rejected state.
use fireviewer_backend.Actor.{Actor, has_all_roles, has_any_role, has_role}
use fireviewer_backend.Call.{Call}
use fireviewer_backend.Enums.{
  IncidentStatus, VerificationState, active_confirmed, candidate, closed, extinguished, monitoring,
  under_review, verified,
}
use fireviewer_backend.Incident.Lifecycle.{
  TransitionRequest, TransitionResponse, allowed, has_fire_id, is_current_of, judge, judge_rule,
  moved_episode, moved_incident, next_note, put_episode, put_incident, role_ok, settle,
}
use fireviewer_backend.Incident.Lifecycle.Rules.{confirmation_guard, resumption_guard}
use fireviewer_backend.Incident.Rows.{
  Episode, IncidentSeries, Registry, episode_identity, incident_identity,
}
use fireviewer_backend.Incident.StateMachine.{TransitionRule, get_transition_rule}
use fireviewer_backend.Incident.Transition.{response_of, transition_incident}
use fireviewer_backend.Incident.Transition.Accepted.{transition_incident-Accepted}
use fireviewer_backend.Incident.Visibility.{canonical_public_visibility}
use fireviewer_backend.Platform.{Platform, Value}
use fireviewer_backend.Prelude.{
  Option, String, all, any, arith, false, is_given, none, refl, select, some, subst, true, ℕ, ◌+◌,
  ◌∙◌, ◌≡◌, ◌≢◌, ◌⊎◌,
}
use fireviewer_backend.Session.{ok, request, returned, scalar_one, scalar_one_or_none}

pub record IsPermitted (actor : Actor) (from : IncidentStatus) (p : TransitionRequest)
    : Type 0 where
  pub rule : TransitionRule
  pub listed : get_transition_rule from p.target_status ≡ some rule
  pub one_role :
      rule.require_all_roles ≡ false → any (has_role actor.roles) rule.required_roles ≡ true
  pub all_roles :
      rule.require_all_roles ≡ true → all (has_role actor.roles) rule.required_roles ≡ true
  pub basis : rule.requires_validation_basis ≡ true → is_given p.validation_basis ≡ true
  pub confirmed :
      p.target_status ≡ active_confirmed
      → (has_role actor.roles "validator" ≡ true) × (is_given p.validation_basis ≡ true)
  pub suspended :
      p.target_status ≡ IncidentStatus.suspended → has_role actor.roles "security_operator" ≡ true
  pub resumed : from ≡ IncidentStatus.suspended → has_role actor.roles "security_operator" ≡ true
  pub alive : from ≢ IncidentStatus.rejected

-- The states that end an episode, and the ones in which it waits for a review.
abbrev pub IsEnd : IncidentStatus → Type 0
IsEnd t = (t ≡ extinguished) ⊎ (t ≡ closed) ⊎ (t ≡ IncidentStatus.rejected)

abbrev pub IsPending : IncidentStatus → Type 0
IsPending t = (t ≡ candidate) ⊎ (t ≡ under_review)

abbrev pub IsLive : IncidentStatus → Type 0
IsLive t = (t ≡ active_confirmed) ⊎ (t ≡ monitoring)

-- What becomes of the episode.
pub record IsMoved (target : IncidentStatus) (now : ℕ) (e e' : Episode) : Type 0 where
  pub place : episode_identity e' ≡ episode_identity e
  pub name : e'.episode_id ≡ e.episode_id
  pub status : e'.status ≡ target
  pub version : e'.version ≡ e.version + 1
  pub timeline : (e'.started_at ≡ e.started_at) × (e'.last_observed_at ≡ e.last_observed_at)
  pub confirmed :
      target ≡ active_confirmed
      → (e'.verification_state ≡ verified)
        × (e'.validated_at ≡ some now)
        × (e'.evidence_basis_at ≡ some now)
  pub rejected :
      target ≡ IncidentStatus.rejected
      → (e'.verification_state ≡ VerificationState.rejected) × (e'.evidence_basis_at ≡ none)
  pub unjudged :
      target ≢ active_confirmed
      → target ≢ IncidentStatus.rejected
      → (e'.verification_state ≡ e.verification_state)
        × (e'.evidence_basis_at ≡ e.evidence_basis_at)
  pub unvalidated : target ≢ active_confirmed → e'.validated_at ≡ e.validated_at
  pub ended : IsEnd target → (e'.ended_at ≡ some now) × (e'.review_required ≡ false)
  pub waiting : IsPending target → (e'.ended_at ≡ none) × (e'.review_required ≡ true)
  pub running : IsLive target → (e'.ended_at ≡ none) × (e'.review_required ≡ false)
  pub held :
      target ≡ IncidentStatus.suspended
      → (e'.ended_at ≡ e.ended_at) × (e'.review_required ≡ e.review_required)

settled :
    (target : IncidentStatus) (now : ℕ) (e : Episode)
    → IsMoved target now e (moved_episode target now e)
unfolding moved_episode settle
settled target now e = record {
  place = ground arith;
  name = ground arith;
  status = ground arith;
  version = ground arith;
  timeline = ground arith;
  confirmed = ground arith;
  rejected = ground arith;
  unjudged = ground arith;
  unvalidated = ground arith;
  ended = ground arith;
  waiting = ground arith;
  running = ground arith;
  held = ground arith;
}

judged :
    (actor : Actor) (from : IncidentStatus) (p : TransitionRequest) (r : Option TransitionRule)
    → get_transition_rule from p.target_status ≡ r
    → judge_rule actor p.validation_basis r ≡ allowed
    → (rule : TransitionRule) × (get_transition_rule from p.target_status ≡ some rule)
      × (role_ok actor rule ≡ true)
      × (rule.requires_validation_basis ≡ true → is_given p.validation_basis ≡ true)
judged actor from p none found h = cc
judged actor from p (some rule) found h =
    (rule, found, ground (arith, h), λ wanted. ground (arith, h, wanted))

suspension_guard :
    (s : IncidentStatus) (actor : Actor) {r : TransitionRule}
    → get_transition_rule s IncidentStatus.suspended ≡ some r
    → role_ok actor r ≡ true
    → has_role actor.roles "security_operator" ≡ true
unfolding get_transition_rule role_ok has_any_role has_all_roles any all
suspension_guard s actor h holds = ground arith

not_rejected :
    (t : IncidentStatus) {r : TransitionRule}
    → get_transition_rule IncidentStatus.rejected t ≡ some r
    → ⊥
unfolding get_transition_rule
not_rejected t h = cc

allowed-IsPermitted :
    (actor : Actor) (from : IncidentStatus) (p : TransitionRequest)
    → judge actor from p ≡ allowed
    → IsPermitted actor from p
unfolding judge
allowed-IsPermitted actor from p h =
    let (rule, found, holds, basis) =
      judged actor from p (get_transition_rule from p.target_status) refl h in
    let at = λ (t : IncidentStatus) (e : p.target_status ≡ t).
      subst (λ u. get_transition_rule from u ≡ some rule) e found in
    record {
      rule = rule;
      listed = found;
      one_role = λ e. unfold role_ok has_any_role in ground (arith, holds, e);
      all_roles = λ e. unfold role_ok has_all_roles in ground (arith, holds, e);
      basis = basis;
      confirmed = λ e.
          let (wanted, held) = confirmation_guard from actor (at active_confirmed e) holds in
          (held, basis wanted);
      suspended = λ e. suspension_guard from actor (at IncidentStatus.suspended e) holds;
      resumed = λ e.
          resumption_guard p.target_status actor
            (subst (λ u. get_transition_rule u p.target_status ≡ some rule) e found) holds;
      alive = λ e.
          not_rejected p.target_status
            (subst (λ u. get_transition_rule u p.target_status ≡ some rule) e found);
    }

next_note-given :
    (target from : IncidentStatus) (words old : Option String)
    → is_given words ≡ true
    → next_note target from words old ≡ words
unfolding next_note
next_note-given target from none old h = cc
next_note-given target from (some words) old h = ground (arith, h)

next_note-suspended :
    (target from : IncidentStatus) (words old : Option String)
    → target ≡ IncidentStatus.suspended
    → is_given words ≡ false
    → next_note target from words old ≡ some "Incident suspended pending review."
unfolding next_note
next_note-suspended target from words old e h = ground (arith, e, h)

-- What a transition found, who was allowed to make it, and what it wrote and answered.
pub record IsLawful (fire_id : String) (p : TransitionRequest) (call : Call) (s : Registry)
    (r : TransitionResponse) (s' : Registry) : Type 0 where
  pub incident : IncidentSeries
  pub episode : Episode
  pub incident' : IncidentSeries
  pub episode' : Episode
  pub found : scalar_one_or_none (select (has_fire_id fire_id) s.incidents) ≡ ok (some incident)
  pub current : scalar_one (select (is_current_of incident.id) s.episodes) ≡ ok episode
  pub fresh : episode.version ≡ p.expected_version
  pub permitted : IsPermitted call.actor episode.status p
  pub moved : IsMoved p.target_status call.now episode episode'
  pub same_incident : incident_identity incident' ≡ incident_identity incident
  pub same_fire : incident'.fire_id ≡ incident.fire_id
  pub next_version : incident'.version ≡ incident.version + 1
  pub visible :
      incident'.public_visibility
      ≡ canonical_public_visibility p.target_status episode'.verification_state
  pub noted : is_given p.public_note ≡ true → incident'.public_note ≡ p.public_note
  pub masked :
      p.target_status ≡ IncidentStatus.suspended
      → is_given p.public_note ≡ false
      → incident'.public_note ≡ some "Incident suspended pending review."
  pub episodes : s'.episodes ≡ put_episode episode' s.episodes
  pub incidents : s'.incidents ≡ put_incident incident' s.incidents
  pub observations : s'.observations ≡ s.observations
  pub sources : s'.sources ≡ s.sources
  pub counters : s'.counters ≡ s.counters
  pub response : r ≡ record {
    fire_id = fire_id;
    episode_id = episode.episode_id;
    previous_status = episode.status;
    status = p.target_status;
    version = episode.version + 1;
    review_required = episode'.review_required;
    trace_id = call.trace_id;
  }

response_lem :
    (P : Platform) (fire_id : String) (p : TransitionRequest) (call : Call) (e : Episode)
    → response_of P fire_id p call e (moved_episode p.target_status call.now e) ≡ record {
      fire_id = fire_id;
      episode_id = e.episode_id;
      previous_status = e.status;
      status = p.target_status;
      version = e.version + 1;
      review_required = (moved_episode p.target_status call.now e).review_required;
      trace_id = call.trace_id;
    }
response_lem P fire_id p call e =
    let m = settled p.target_status call.now e in rw (m.name, m.status, m.version) refl

-- A transition that is answered afresh found the one incident of that identifier and its one current
-- episode, at the expected version. The actor was permitted to make the move: the table has
-- it, the roles and the basis of its rule were given, and with them a validator and a basis for a
-- confirmation, and a security operator for a suspension or its end. The transition wrote the moved
-- episode and the incident with the canonical visibility, each at its next version and in its place, wrote
-- nothing else in the tables, and answered with what it wrote.
pub transition_incident-IsLawful :
    (P : Platform) (fire_id : String) (p : TransitionRequest) (call : Call)
    (validate : Value → Option TransitionResponse) (db d w : Registry) (r : TransitionResponse)
    → request (transition_incident P fire_id p call validate) db
      ≡ returned (record { response = r; replayed = false }) d w
    → IsLawful fire_id p call db r d
unfolding moved_incident
transition_incident-IsLawful P fire_id p call validate db d w r h =
    let a = transition_incident-Accepted P fire_id p call validate db d w r h in
    let e' = moved_episode p.target_status call.now a.episode in
    record {
      incident = a.incident;
      episode = a.episode;
      incident' = moved_incident p a.episode.status e'.verification_state a.incident;
      episode' = e';
      found = a.found;
      current = a.current;
      fresh = a.fresh;
      permitted = allowed-IsPermitted call.actor a.episode.status p a.permitted;
      moved = settled p.target_status call.now a.episode;
      same_incident = refl;
      same_fire = refl;
      next_version = refl;
      visible = refl;
      noted = next_note-given p.target_status a.episode.status p.public_note a.incident.public_note;
      masked =
          next_note-suspended p.target_status a.episode.status p.public_note a.incident.public_note;
      episodes = a.episodes;
      incidents = a.incidents;
      observations = a.observations;
      sources = a.sources;
      counters = a.counters;
      response = a.responded ∙ response_lem P fire_id p call a.episode;
    }
