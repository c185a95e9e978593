-- ===== src/Incident/Create.antt =====
-- services/common.py: the allocation of fire identifiers, new incidents and episodes, and the
-- reactivation of an ended one. A new row stands first in its table.
use fireviewer_backend.Doubles.{Doubles}
use fireviewer_backend.Enums.{IncidentStatus, under_review, unverified}
use fireviewer_backend.Geospatial.{bbox_for_point}
use fireviewer_backend.Incident.FireId.{format_episode_id, format_fire_id}
use fireviewer_backend.Incident.Lifecycle.{put_episode, put_incident}
use fireviewer_backend.Incident.Rows.{Episode, FireIdCounter, IncidentSeries, Registry}
use fireviewer_backend.Incident.Visibility.{canonical_public_visibility}
use fireviewer_backend.Prelude.{
  List, Option, String, [], false, if◌then◌else◌, max, none, str_eq, true, ℕ, ◌+◌, ◌==◌, ◌∷◌,
}

-- The keys that the database gives to the rows that a request inserts.
pub record Keys : Type 0 where
  pub incident_key : ℕ
  pub episode_key : ℕ
  pub source_key : ℕ
  pub observation_key : ℕ

-- The sequence that the next incident of a territory takes.
unfoldable pub next_sequence_of : String → List FireIdCounter → ℕ
next_sequence_of code [] = 1
next_sequence_of code (row ∷ rows) =
    if str_eq row.territory_code code then row.next_sequence else next_sequence_of code rows

unfoldable pub counted_up : String → List FireIdCounter → List FireIdCounter
counted_up code [] = record { territory_code = code; next_sequence = 2 } ∷ []
counted_up code (row ∷ rows) =
    let rest = counted_up code rows in
    if str_eq row.territory_code code
    then record row { next_sequence = row.next_sequence + 1 } ∷ rows
    else row ∷ rest

unfoldable pub allocate_fire_id : String → List FireIdCounter → (String × ℕ) × List FireIdCounter
unfolding next_sequence_of counted_up
allocate_fire_id territory_code counters =
    let sequence = next_sequence_of territory_code counters in
    ((format_fire_id territory_code sequence, sequence), counted_up territory_code counters)

-- The arguments of `create_incident_and_episode`.
pub record NewIncident : Type 0 where
  pub territory_code : String
  pub longitude : ℕ
  pub latitude : ℕ
  pub uncertainty_m : ℕ
  pub canonical_name : Option String
  pub observed_at : ℕ
  pub policy_id : String
  pub initial_status : IncidentStatus

unfoldable pub new_episode : ℕ → ℕ → ℕ → IncidentStatus → ℕ → String → Episode
new_episode key incident_id ordinal status observed_at policy_id = record {
  id = key;
  incident_id = incident_id;
  episode_id = format_episode_id ordinal;
  ordinal = ordinal;
  status = status;
  verification_state = unverified;
  corroborating_source_count = 0;
  evidence_basis_at = none;
  estimated_area_ha = none;
  evacuation_established = false;
  evacuation_basis = none;
  review_required = true;
  is_current = true;
  confidence_policy = policy_id;
  started_at = observed_at;
  last_observed_at = observed_at;
  validated_at = none;
  ended_at = none;
  version = 1;
}

module _ (F : Doubles) where
  unfoldable pub new_incident : ℕ → String × ℕ → NewIncident → IncidentSeries
  new_incident key (fire_id, sequence) n =
      let bbox = bbox_for_point F n.longitude n.latitude n.uncertainty_m in
      record {
        id = key;
        fire_id = fire_id;
        territory_code = n.territory_code;
        sequence = sequence;
        canonical_name = n.canonical_name;
        reference_lon = n.longitude;
        reference_lat = n.latitude;
        horizontal_uncertainty_m = n.uncertainty_m;
        bbox_min_lon = bbox.min_lon;
        bbox_max_lon = bbox.max_lon;
        bbox_min_lat = bbox.min_lat;
        bbox_max_lat = bbox.max_lat;
        public_visibility = canonical_public_visibility n.initial_status unverified;
        public_note = none;
        version = 1;
      }

  unfoldable pub create_incident_and_episode :
      Keys → NewIncident → Registry → (IncidentSeries × Episode) × Registry
  unfolding allocate_fire_id new_incident new_episode
  create_incident_and_episode keys n s =
      let (allocated, counters) = allocate_fire_id n.territory_code s.counters in
      let incident = new_incident keys.incident_key allocated n in
      let episode =
        new_episode keys.episode_key incident.id 1 n.initial_status n.observed_at n.policy_id in
      (
        (incident, episode),
        record s {
          incidents = incident ∷ s.incidents;
          episodes = episode ∷ s.episodes;
          counters = counters;
        },
      )

-- `select(func.max(Episode.ordinal)).where(Episode.incident_id == incident.id)`, 0 for no row.
unfoldable pub max_ordinal : ℕ → List Episode → ℕ
max_ordinal incident_id [] = 0
max_ordinal incident_id (e ∷ es) =
    max (if e.incident_id == incident_id then e.ordinal else 0) (max_ordinal incident_id es)

-- The rows that a reactivation leaves: the incident, the previous episode and the new one.
pub record Reactivated : Type 0 where
  pub incident : IncidentSeries
  pub previous : Episode
  pub episode : Episode

unfoldable pub reactivated_rows :
    ℕ → IncidentSeries → Episode → ℕ → String → List Episode → Reactivated
unfolding max_ordinal new_episode
reactivated_rows key incident previous_episode observed_at policy_id episodes = record {
  incident = record incident {
    public_visibility = canonical_public_visibility under_review unverified;
    version = incident.version + 1;
  };
  previous = record previous_episode { is_current = false; version = previous_episode.version + 1 };
  episode =
      new_episode key incident.id (max_ordinal incident.id episodes + 1) under_review observed_at
        policy_id;
}

unfoldable pub create_reactivation_episode :
    Keys → IncidentSeries → Episode → ℕ → String → Registry → Reactivated × Registry
unfolding reactivated_rows
create_reactivation_episode keys incident previous_episode observed_at policy_id s =
    let r =
      reactivated_rows keys.episode_key incident previous_episode observed_at policy_id
        s.episodes in
    (
      r,
      record s {
        incidents = put_incident r.incident s.incidents;
        episodes = r.episode ∷ put_episode r.previous s.episodes;
      },
    )
