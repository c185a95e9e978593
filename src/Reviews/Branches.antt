-- ===== src/Reviews/Branches.antt =====
-- services/reviews.py: each branch on the action leaves sound tables, and an incident with its current
-- episode to work on.
use fireviewer_backend.Doubles.{Doubles, Settings}
use fireviewer_backend.Enums.{
  IncidentStatus, active_confirmed, candidate, closed, extinguished, monitoring, under_review,
}
use fireviewer_backend.Incident.Create.{Keys}
use fireviewer_backend.Incident.Lifecycle.{put_episode, put_incident}
use fireviewer_backend.Incident.Rows.{Episode, IncidentSeries, Observation, Registry}
use fireviewer_backend.Incident.Sound.{IsSound, Sound}
use fireviewer_backend.Incident.Sound.Ready.{FreshKeys, TargetIn, created_ready, reactivated_ready}
use fireviewer_backend.Incident.Sound.Targets.{IsTarget}
use fireviewer_backend.Incident.Sound.Written.{IsIncidentRow, IsRow, written-keys}
use fireviewer_backend.Incident.Transition.Coherence.{IsCanonical, IsCoherent}
use fireviewer_backend.Prelude.{
  ==_refl, All, All-imp, All-imp2, All-update_to, Bool-cases, List, [], any, ap, arith, if_cases,
  inl, inr, ltb, refl, subst, sym, true, update, ◌+◌, ◌==◌, ◌∷◌, ◌≡◌,
}
use fireviewer_backend.Reviews.Actions.{
  Decided, advance, attach_to_current, create_from_observation, incident_of, reactivate,
}
use fireviewer_backend.Reviews.Request.{ReviewResolutionRequest}
use fireviewer_backend.Session.{ok, ok_value}

-- A row that was written is the only one with its key.
put_episode-IsRow : (e : Episode) (xs : List Episode) → All (IsRow e) (put_episode e xs)
unfolding update
put_episode-IsRow e [] = tt
put_episode-IsRow e (x ∷ xs) = (
  if_cases (IsRow e) (x.id == e.id) (λ _ _. refl) (λ other same. cc (other, same)),
  put_episode-IsRow e xs,
)

put_episode_here :
    (e : Episode) (xs : List Episode)
    → any (λ x. x.id == e.id) xs ≡ true
    → any (λ x. x.id == e.id) (put_episode e xs) ≡ true
unfolding update any
put_episode_here e [] h = h
put_episode_here e (x ∷ xs) h = elim (Bool-cases (x.id == e.id)) [
  | inl same ↦ rw same (ground (arith, ==_refl e.id))
  | inr other ↦ rw (other, other) (put_episode_here e xs (rw other at h))
]

put_incident_same :
    (i : IncidentSeries) (xs : List IncidentSeries)
    → All (IsIncidentRow i) xs
    → put_incident i xs ≡ xs
unfolding update
put_incident_same i [] h = refl
put_incident_same i (x ∷ xs) h = elim (Bool-cases (x.id == i.id)) [
  | inl same ↦ rw same (λ k. sym (h.0 same) k ∷ put_incident_same i xs h.1 k)
  | inr other ↦ rw other (ap (λ ys. x ∷ ys) (put_incident_same i xs h.1))
]

abbrev pub IsReady : Decided → Type 0
IsReady d = Sound d.registry × TargetIn d.target d.registry

module _ (F : Doubles) (settings : Settings) (keys : Keys) (p : ReviewResolutionRequest)
    (o : Observation) (s : Registry) (fresh : FreshKeys keys s) (sound : Sound s) where
  pub create-IsReady : IsReady (create_from_observation F settings keys p o s)
  unfolding create_from_observation
  create-IsReady = created_ready F keys (incident_of F settings keys p o) s fresh sound

  module _ (incident : IncidentSeries) (current : Episode)
      (t : IsTarget s.incidents s.episodes incident current) where
    reactivate-IsReady : IsReady (reactivate F settings keys p incident current o s)
    reactivate-IsReady =
        reactivated_ready keys incident current o.observed_at settings.matching_policy_id s fresh
          sound t

    -- Advancing the timeline changes neither the state nor the place of the episode.
    advance-IsReady : IsReady (advance F settings keys p incident current o s)
    advance-IsReady =
        let e' : Episode = record current {
          last_observed_at = o.observed_at;
          version = current.version + 1;
        } in
        let coherent : IsCoherent s.incidents (put_episode e' s.episodes) =
          All-imp s.incidents
            (λ j c.
              All-update_to (λ x. IsRow current x × IsCanonical j x) (IsCanonical j)
                (λ x. x.id == current.id) (λ _. e') s.episodes
                (λ x h.
                  if_cases (IsCanonical j) (x.id == current.id)
                    (λ same. subst (IsCanonical j) (h.0 same) h.1) (λ _. h.1))
                (All-imp2 s.episodes (λ x a b. (a, b)) t.episode_row c))
            sound.coherent in
        let same = put_incident_same incident s.incidents t.incident_row in
        let after : IsSound s.incidents (put_episode e' s.episodes) s.counters =
          subst (λ is. IsSound is (put_episode e' s.episodes) s.counters) same
            (written-keys incident incident current e' refl refl refl refl refl (λ c. c) s.incidents
              s.episodes s.counters t.incident_row t.episode_row
              (subst (λ is. IsCoherent is (put_episode e' s.episodes)) (sym same) coherent)
              sound) in
        if_cases IsReady (ltb current.last_observed_at o.observed_at)
          (λ _. (
            after,
            record {
              incident_row = t.incident_row;
              episode_row = put_episode-IsRow e' s.episodes;
              episode_here = put_episode_here e' s.episodes t.episode_here;
              owner = t.owner;
              current = t.current;
            },
          ))
          (λ _. (sound, t))

  pub attach-IsReady :
      (status : IncidentStatus) (incident : IncidentSeries) (current : Episode)
      → IsTarget s.incidents s.episodes incident current
      → {d : Decided} → attach_to_current F settings keys p status incident current o s ≡ ok d
      → IsReady d
  unfolding attach_to_current
  attach-IsReady IncidentStatus.suspended incident current t h = cc
  attach-IsReady IncidentStatus.rejected incident current t h = cc
  attach-IsReady extinguished incident current t h =
      subst IsReady (ok_value h) (reactivate-IsReady incident current t)
  attach-IsReady closed incident current t h =
      subst IsReady (ok_value h) (reactivate-IsReady incident current t)
  attach-IsReady candidate incident current t h =
      subst IsReady (ok_value h) (advance-IsReady incident current t)
  attach-IsReady under_review incident current t h =
      subst IsReady (ok_value h) (advance-IsReady incident current t)
  attach-IsReady active_confirmed incident current t h =
      subst IsReady (ok_value h) (advance-IsReady incident current t)
  attach-IsReady monitoring incident current t h =
      subst IsReady (ok_value h) (advance-IsReady incident current t)
