-- ===== src/Matching/Candidates.antt =====
-- services/candidates.py: `find_candidates`. What a database selects by position and in which order
-- is a parameter: `near box` is its spatial test, `recent` its order of the rows by the time of their
-- last update, which the modelled columns do not hold.
use fireviewer_backend.Enums.{same_visibility, tombstoned}
use fireviewer_backend.Geospatial.{BoundingBox}
use fireviewer_backend.Incident.Lifecycle.{is_current_of}
use fireviewer_backend.Incident.Rows.{Episode, IncidentSeries}
use fireviewer_backend.Matching.Score.{Candidate}
use fireviewer_backend.Prelude.{
  Bool, List, [], length, ltb, map, not, select, sorted, take_first, ℕ, ◌&&◌, ◌++◌, ◌+◌, ◌∷◌,
}

abbrev to_candidate : IncidentSeries → Episode → Candidate
to_candidate incident episode = record {
  incident_db_id = incident.id;
  episode_db_id = episode.id;
  fire_id = incident.fire_id;
  episode_id = episode.episode_id;
  reference_lon = incident.reference_lon;
  reference_lat = incident.reference_lat;
  uncertainty_m = incident.horizontal_uncertainty_m;
  canonical_name = incident.canonical_name;
  status = episode.status;
  started_at = episode.started_at;
  last_observed_at = episode.last_observed_at;
  ended_at = episode.ended_at;
}

-- The spatial index of the database: its WHERE clause and its ORDER BY.
pub record SpatialIndex : Type 0 where
  pub near : BoundingBox → IncidentSeries → Bool
  pub recent : IncidentSeries → IncidentSeries → Bool

-- The join with the current episodes of each incident, in the order of the incidents.
abbrev rows_of : List Episode → IncidentSeries → List Candidate
rows_of episodes i = map (to_candidate i) (select (is_current_of i.id) episodes)

unfoldable pub joined : List Episode → List IncidentSeries → List Candidate
joined episodes [] = []
joined episodes (i ∷ is) = rows_of episodes i ++ joined episodes is

module _ (X : SpatialIndex) where
  abbrev is_searched : BoundingBox → IncidentSeries → Bool
  is_searched box i = X.near box i && not (same_visibility i.public_visibility tombstoned)

  -- The queries of the SQLite and PostgreSQL branches: incidents first, limited, then the join.
  unfoldable pub find_candidates :
      BoundingBox → ℕ → List IncidentSeries → List Episode → List Candidate × Bool
  unfolding joined
  find_candidates box limit incidents episodes =
      let ids = take_first (limit + 1) (sorted X.recent (select (is_searched box) incidents)) in
      let candidates = joined episodes ids in
      (take_first limit candidates, ltb limit (length candidates))
