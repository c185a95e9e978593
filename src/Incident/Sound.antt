-- ===== src/Incident/Sound.antt =====
-- The invariant of the registry's tables (db/models.py): the keys, the numbering of the incidents, one
-- current episode per incident, and the visibility of every incident.
pub mod Written
pub mod Created
pub mod Reopened
pub mod Targets
pub mod Ready
use fireviewer_backend.Incident.Create.{next_sequence_of}
use fireviewer_backend.Incident.Rows.{Episode, FireIdCounter, IncidentSeries, Registry}
use fireviewer_backend.Incident.Transition.Coherence.{IsCoherent}
use fireviewer_backend.Prelude.{
  All, AllPairs, Bool, List, any, false, str_eq, true, ◌&&◌, ◌<◌, ◌==◌, ◌≡◌,
}

abbrev pub OtherKey : Episode → Episode → Type 0
OtherKey e f = (e.id == f.id) ≡ false

abbrev pub OtherIncident : IncidentSeries → IncidentSeries → Type 0
OtherIncident i j = (i.id == j.id) ≡ false

-- The two are not both the current episode of one incident.
abbrev pub OneCurrent : Episode → Episode → Type 0
OneCurrent e f = ((e.incident_id == f.incident_id) && (e.is_current && f.is_current)) ≡ false

-- The two incidents are numbered apart.
abbrev pub OtherNumber : IncidentSeries → IncidentSeries → Type 0
OtherNumber i j = (str_eq i.territory_code j.territory_code && (i.sequence == j.sequence)) ≡ false

abbrev pub owns : Episode → IncidentSeries → Bool
owns e i = i.id == e.incident_id

-- The sequence of the incident was allocated.
abbrev pub IsCounted : List FireIdCounter → IncidentSeries → Type 0
IsCounted counters i = i.sequence < next_sequence_of i.territory_code counters

pub record IsSound (incidents : List IncidentSeries) (episodes : List Episode)
    (counters : List FireIdCounter) : Type 0 where
  pub coherent : IsCoherent incidents episodes
  pub one_current : AllPairs OneCurrent episodes
  pub owned : All (λ e. any (owns e) incidents ≡ true) episodes
  pub episode_keys : AllPairs OtherKey episodes
  pub incident_keys : AllPairs OtherIncident incidents
  pub counted : All (IsCounted counters) incidents
  pub numbers : AllPairs OtherNumber incidents

abbrev pub Sound : Registry → Type 0
Sound s = IsSound s.incidents s.episodes s.counters
