-- ===== src/Detection/Placed.antt =====
-- services/detection.py: the placement of an observation leaves sound tables, and the attached
-- incident with its current episode.
-- What `session.get` reads is the only row with its key.
use fireviewer_backend.Detection.Place.{
  Placement, attach_placement, create_placement, detected_incident, first_row, got, place,
  place_candidate, place_proposed,
}
use fireviewer_backend.Detection.Request.{DetectionRequest, Intake}
use fireviewer_backend.Doubles.{Doubles, Settings}
use fireviewer_backend.Enums.{
  IncidentStatus, active_confirmed, candidate, closed, extinguished, monitoring, under_review,
}
use fireviewer_backend.Enums.Sources.{MatchDecision}
use fireviewer_backend.Incident.Lifecycle.{has_episode_key, has_incident_key, is_current_of}
use fireviewer_backend.Incident.Rows.{Episode, IncidentSeries, Registry}
use fireviewer_backend.Incident.Sound.{OtherIncident, Sound}
use fireviewer_backend.Incident.Sound.Ready.{FreshKeys, ReadyWith, created_ready, reactivated_ready}
use fireviewer_backend.Incident.Sound.Targets.{IsTarget, found_here}
use fireviewer_backend.Incident.Sound.Written.{IsIncidentRow, scalar_one_row}
use fireviewer_backend.Matching.Score.{Candidate, ScoredCandidate}
use fireviewer_backend.Platform.{Platform}
use fireviewer_backend.Prelude.{
  All, All-imp, AllPairs, Bool-cases, List, Option, [], arith, inl, inr, none, refl, select, some,
  subst, true, ℕ, ◌==◌, ◌∷◌, ◌≡◌,
}
use fireviewer_backend.Session.{ok, ok_value, scalar_one, scalar_one_unique, then_read-ok}

got_row :
    (k : ℕ) (xs : List IncidentSeries) {i : IncidentSeries}
    → AllPairs OtherIncident xs
    → got (first_row (select (has_incident_key k) xs)) ≡ ok i
    → ((i.id == k) ≡ true) × All (IsIncidentRow i) xs
unfolding select
got_row k [] distinct h = cc
got_row k (x ∷ xs) {i} distinct h = elim (Bool-cases (x.id == k)) [
  | inl e ↦
      let same : x ≡ i = ok_value (rw e at h) in
      subst (λ j. ((j.id == k) ≡ true) × All (IsIncidentRow j) (x ∷ xs)) same
        (
          e,
          (
            (λ _. refl),
            All-imp xs (λ y other mine. absurd (ground (arith, other, mine))) distinct.0,
          ),
        )
  | inr e ↦
      let (mine, rows) = got_row k xs {i = i} distinct.1 (rw e at h) in
      (mine, ((λ same. absurd (ground (arith, same, mine, e))), rows))
]

module _ (P : Platform) (F : Doubles) (settings : Settings) (p : DetectionRequest) (n : Intake)
    (s : Registry) (fresh : FreshKeys n.keys s) (sound : Sound s) where
  abbrev IsPlaced : Placement → Type 0
  IsPlaced placed = ReadyWith placed.attached placed.registry

  create_placement-IsPlaced : IsPlaced (create_placement P F settings p n s)
  unfolding create_placement
  create_placement-IsPlaced =
      created_ready F n.keys (detected_incident P F settings p n) s fresh sound

  attach_placement-IsPlaced :
      (status : IncidentStatus) (incident : IncidentSeries) (current : Episode)
      → IsTarget s.incidents s.episodes incident current
      → IsPlaced (attach_placement P F settings p n status incident current s)
  unfolding attach_placement
  attach_placement-IsPlaced extinguished incident current t =
      reactivated_ready n.keys incident current p.observed_at settings.matching_policy_id s fresh
        sound t
  attach_placement-IsPlaced closed incident current t =
      reactivated_ready n.keys incident current p.observed_at settings.matching_policy_id s fresh
        sound t
  attach_placement-IsPlaced candidate incident current t = (sound, t)
  attach_placement-IsPlaced under_review incident current t = (sound, t)
  attach_placement-IsPlaced active_confirmed incident current t = (sound, t)
  attach_placement-IsPlaced monitoring incident current t = (sound, t)
  attach_placement-IsPlaced IncidentStatus.suspended incident current t = (sound, t)
  attach_placement-IsPlaced IncidentStatus.rejected incident current t = (sound, t)

  place_proposed-IsPlaced :
      (decision : MatchDecision) (incident : IncidentSeries) (episode : Episode)
      {placed : Placement}
      → All (IsIncidentRow incident) s.incidents
      → place_proposed P F settings p n decision incident episode s ≡ ok placed
      → IsPlaced placed
  unfolding place_proposed
  place_proposed-IsPlaced MatchDecision.attach incident episode rows h =
      let (current, now, h₁) =
        then_read-ok (scalar_one (select (is_current_of incident.id) s.episodes)) _ h in
      let (_, is_it) = scalar_one_unique (is_current_of incident.id) s.episodes now in
      subst IsPlaced (ok_value h₁) (
        attach_placement-IsPlaced current.status incident current (record {
          incident_row = rows;
          episode_row =
              scalar_one_row (λ (x : Episode). x.id) (is_current_of incident.id) s.episodes
                sound.episode_keys now;
          episode_here =
              found_here (λ (x : Episode). x.id) (is_current_of incident.id) s.episodes now;
          owner = ground (arith, is_it);
          current = ground (arith, is_it);
        }))
  place_proposed-IsPlaced MatchDecision.create incident episode rows h =
      subst IsPlaced (ok_value h) (sound, tt)
  place_proposed-IsPlaced MatchDecision.review incident episode rows h =
      subst IsPlaced (ok_value h) (sound, tt)

  place_candidate-IsPlaced :
      (decision : MatchDecision) (c : Candidate) {placed : Placement}
      → place_candidate P F settings p n decision c s ≡ ok placed
      → IsPlaced placed
  place_candidate-IsPlaced decision c h =
      let (incident, read, h₁) =
        then_read-ok (got (first_row (select (has_incident_key c.incident_db_id) s.incidents))) _
          h in
      let (episode, _, h₂) =
        then_read-ok (got (first_row (select (has_episode_key c.episode_db_id) s.episodes))) _ h₁ in
      let (_, rows) = got_row c.incident_db_id s.incidents sound.incident_keys read in
      place_proposed-IsPlaced decision incident episode rows h₂

  pub place-IsPlaced :
      (decision : MatchDecision) (best : Option ScoredCandidate) {placed : Placement}
      → place P F settings p n decision best s ≡ ok placed
      → IsPlaced placed
  unfolding place
  place-IsPlaced MatchDecision.create best h = subst IsPlaced (ok_value h) create_placement-IsPlaced
  place-IsPlaced MatchDecision.attach none h = subst IsPlaced (ok_value h) (sound, tt)
  place-IsPlaced MatchDecision.review none h = subst IsPlaced (ok_value h) (sound, tt)
  place-IsPlaced MatchDecision.attach (some best) h =
      place_candidate-IsPlaced MatchDecision.attach best.candidate h
  place-IsPlaced MatchDecision.review (some best) h =
      place_candidate-IsPlaced MatchDecision.review best.candidate h
