-- ===== src/Incident/Sound/Ready.antt =====
-- services/common.py: a new incident, and a reactivated one, with its current episode to work on.
use fireviewer_backend.Doubles.{Doubles}
use fireviewer_backend.Incident.Create.{
  Keys, NewIncident, create_incident_and_episode, create_reactivation_episode, new_episode,
  new_incident, reactivated_rows,
}
use fireviewer_backend.Incident.Lifecycle.{put_episode, put_incident}
use fireviewer_backend.Incident.Rows.{Episode, IncidentSeries, Registry}
use fireviewer_backend.Incident.Sound.{Sound, owns}
use fireviewer_backend.Incident.Sound.Created.{create-Sound}
use fireviewer_backend.Incident.Sound.Reopened.{reactivate-Sound}
use fireviewer_backend.Incident.Sound.Targets.{All_here, IsTarget, only_target}
use fireviewer_backend.Incident.Sound.Written.{IsIncidentRow}
use fireviewer_backend.Prelude.{
  ==_refl, All, All-imp, List, Option, String, [], any, arith, false, if_cases, none, refl, some,
  subst, true, update, ℕ, ◌==◌, ◌∷◌, ◌≡◌,
}

put_incident-IsIncidentRow :
    (i : IncidentSeries) (xs : List IncidentSeries) → All (IsIncidentRow i) (put_incident i xs)
unfolding update
put_incident-IsIncidentRow i [] = tt
put_incident-IsIncidentRow i (x ∷ xs) = (
  if_cases (IsIncidentRow i) (x.id == i.id) (λ _ _. refl) (λ other same. cc (other, same)),
  put_incident-IsIncidentRow i xs,
)

-- The incident and the episode that a step leaves.
abbrev pub TargetIn : Option (IncidentSeries × Episode) → Registry → Type 0
TargetIn none s = Unit {0}
TargetIn (some (i, e)) s = IsTarget s.incidents s.episodes i e

-- The keys of a request are new in their tables.
abbrev pub FreshKeys : Keys → Registry → Type 0
FreshKeys keys s =
    All (λ i. (i.id == keys.incident_key) ≡ false) s.incidents
    × All (λ e. (e.id == keys.episode_key) ≡ false) s.episodes

-- Sound tables, and a target in them.
abbrev pub ReadyWith : Option (IncidentSeries × Episode) → Registry → Type 0
ReadyWith target s = Sound s × TargetIn target s

pub created_ready :
    (F : Doubles) (keys : Keys) (n : NewIncident) (s : Registry)
    → FreshKeys keys s
    → Sound s
    → ReadyWith
        (some (create_incident_and_episode F keys n s).0)
        (create_incident_and_episode F keys n s).1
unfolding create_incident_and_episode new_incident new_episode any
created_ready F keys n s fresh sound = (
  create-Sound F keys n s fresh.0 fresh.1 sound,
  record {
    incident_row = ((λ _. refl), All-imp s.incidents (λ i other same. cc (other, same)) fresh.0);
    episode_row = ((λ _. refl), All-imp s.episodes (λ e other same. cc (other, same)) fresh.1);
    episode_here = ground (arith, ==_refl keys.episode_key);
    owner = refl;
    current = refl;
  },
)

pub reactivated_ready :
    (keys : Keys) (incident : IncidentSeries) (current : Episode) (observed_at : ℕ)
    (policy_id : String) (s : Registry)
    → FreshKeys keys s
    → Sound s
    → IsTarget s.incidents s.episodes incident current
    → ReadyWith
        (some (
          (create_reactivation_episode keys incident current observed_at policy_id s).0.incident,
          (create_reactivation_episode keys incident current observed_at policy_id s).0.episode,
        ))
        (create_reactivation_episode keys incident current observed_at policy_id s).1
unfolding create_reactivation_episode reactivated_rows new_episode any
reactivated_ready keys incident current observed_at policy_id s fresh sound t =
    let present : any (λ j. j.id == incident.id) s.incidents ≡ true =
      subst (λ k. any (λ (j : IncidentSeries). j.id == k) s.incidents ≡ true) t.owner
        (All_here (λ x. any (owns x) s.incidents ≡ true) current s.episodes t.episode_here
          t.episode_row sound.owned) in
    let only = only_target s.incidents s.episodes incident current t sound.one_current in
    let after =
      reactivate-Sound keys incident current observed_at policy_id s t.incident_row t.episode_row
        only t.owner present fresh.1 sound in
    (
      after,
      record {
        incident_row = put_incident-IsIncidentRow _ s.incidents;
        episode_row = (
          (λ _. refl),
          All-imp (put_episode _ s.episodes) (λ x other same. absurd (ground (arith, other, same)))
              after.episode_keys.0,
        );
        episode_here = ground (arith, ==_refl keys.episode_key);
        owner = refl;
        current = refl;
      },
    )
