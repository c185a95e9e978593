-- ===== src/Reviews/Actions.antt =====
-- services/reviews.py: the three branches on the action, up to the purge of the observation.
use fireviewer_backend.Doubles.{Doubles, Settings}
use fireviewer_backend.Enums.{IncidentStatus, candidate, closed, extinguished}
use fireviewer_backend.Enums.Sources.{MatchDecision, ReviewResolutionAction}
use fireviewer_backend.Errors.{Failure, bad_request, conflict}
use fireviewer_backend.Incident.Create.{
  Keys, NewIncident, create_incident_and_episode, create_reactivation_episode,
}
use fireviewer_backend.Incident.FireId.{is_fire_id}
use fireviewer_backend.Incident.Lifecycle.{
  has_episode_key, has_fire_id, has_incident_key, is_current_of, put_episode,
}
use fireviewer_backend.Incident.Rows.{Episode, IncidentSeries, Observation, Registry}
use fireviewer_backend.Prelude.{Option, String, if◌then◌else◌, ltb, none, select, some, ℕ, ◌+◌}
use fireviewer_backend.Reviews.Request.{
  ReviewResolutionRequest, attached_observation, name_of, rejected_observation,
}
use fireviewer_backend.Session.{
  Result, err, ok, or_not_found, scalar_one, scalar_one_or_none, ◌then_read◌,
}

-- What a branch did to the incident and the episode: `reactivated` and `advanced` carry the rows as
-- they were before.
pub data Change : Type 0 where
  unchanged created : Change
  reactivated : IncidentSeries → Episode → Episode → Change
  advanced : Episode → Change

-- The local variables after the branch. `registry` has the rows of the incident and the episode.
pub record Decided : Type 0 where
  pub target : Option (IncidentSeries × Episode)
  pub change : Change
  pub observation : Observation
  pub registry : Registry

-- The target of a rejection.
unfoldable pub attached_rows :
    Option ℕ → Option ℕ → Registry → Result (Option (IncidentSeries × Episode))
attached_rows (some i) (some e) s =
    scalar_one (select (has_incident_key i) s.incidents) then_read (λ incident.
      scalar_one (select (has_episode_key e) s.episodes)
      then_read (λ episode. ok (some (incident, episode))))
attached_rows _ _ s = ok none

unfoldable pub reject_observation : Observation → Registry → Result Decided
unfolding attached_rows
reject_observation o s =
    attached_rows o.attached_incident_id o.attached_episode_id s then_read (λ target. ok (record {
      target = target;
      change = unchanged;
      observation = rejected_observation o;
      registry = s;
    }))

module _ (F : Doubles) (settings : Settings) (keys : Keys) (p : ReviewResolutionRequest) where
  abbrev pub incident_of : Observation → NewIncident
  incident_of o = record {
    territory_code = o.territory_code;
    longitude = o.longitude;
    latitude = o.latitude;
    uncertainty_m = o.horizontal_uncertainty_m;
    canonical_name = name_of o.canonical_name_hint o.toponyms;
    observed_at = o.observed_at;
    policy_id = settings.matching_policy_id;
    initial_status = candidate;
  }

  unfoldable pub create_from_observation : Observation → Registry → Decided
  create_from_observation o s =
      let ((incident, episode), s') = create_incident_and_episode F keys (incident_of o) s in
      record {
        target = some (incident, episode);
        change = created;
        observation =
            attached_observation MatchDecision.create p.publish_spatial_evidence incident episode o;
        registry = s';
      }

  abbrev pub attached_to : Change → IncidentSeries → Episode → Observation → Registry → Decided
  attached_to change incident episode o s = record {
    target = some (incident, episode);
    change = change;
    observation =
        attached_observation MatchDecision.attach p.publish_spatial_evidence incident episode o;
    registry = s;
  }

  abbrev pub reactivate : IncidentSeries → Episode → Observation → Registry → Decided
  reactivate incident current o s =
      let (r, s') =
        create_reactivation_episode keys incident current o.observed_at settings.matching_policy_id
          s in
      attached_to (reactivated incident current r.previous) r.incident r.episode o s'

  abbrev pub advance : IncidentSeries → Episode → Observation → Registry → Decided
  advance incident current o s =
      if ltb current.last_observed_at o.observed_at
      then (let episode : Episode = record current {
        last_observed_at = o.observed_at;
        version = current.version + 1;
      } in
          attached_to (advanced current) incident episode o
            (record s { episodes = put_episode episode s.episodes }))
      else attached_to unchanged incident current o s

  abbrev pub not_attachable : Failure
  not_attachable =
      conflict "incident_not_attachable"
        "The selected incident cannot accept observations in its current state."

  -- The branches on the state of the current episode.
  unfoldable pub attach_to_current :
      IncidentStatus → IncidentSeries → Episode → Observation → Registry → Result Decided
  attach_to_current IncidentStatus.suspended incident current o s = err not_attachable
  attach_to_current IncidentStatus.rejected incident current o s = err not_attachable
  attach_to_current extinguished incident current o s = ok (reactivate incident current o s)
  attach_to_current closed incident current o s = ok (reactivate incident current o s)
  attach_to_current _ incident current o s = ok (advance incident current o s)

  abbrev pub attach_to_incident : Observation → Registry → IncidentSeries → Result Decided
  attach_to_incident o s incident =
      scalar_one (select (is_current_of incident.id) s.episodes)
      then_read (λ current. attach_to_current current.status incident current o s)

  abbrev invalid_fire_id : Failure
  invalid_fire_id = bad_request "invalid_fire_id" "target_fire_id has an invalid format."

  unfoldable pub attach_to_fire : Option String → Observation → Registry → Result Decided
  unfolding attach_to_current
  attach_to_fire none o s = err invalid_fire_id
  attach_to_fire (some fire_id) o s =
      if is_fire_id fire_id
      then (scalar_one_or_none (select (has_fire_id fire_id) s.incidents) then_read (λ found.
          or_not_found "incident" fire_id found then_read (attach_to_incident o s)))
      else err invalid_fire_id

  unfoldable pub decide_action : ReviewResolutionAction → Observation → Registry → Result Decided
  unfolding reject_observation create_from_observation attach_to_fire
  decide_action ReviewResolutionAction.reject o s = reject_observation o s
  decide_action ReviewResolutionAction.create o s = ok (create_from_observation o s)
  decide_action ReviewResolutionAction.attach o s = attach_to_fire p.target_fire_id o s
