-- ===== src/Incident/Sound/Targets.antt =====
-- The incident and the current episode that a service works on, as rows of sound tables.
use fireviewer_backend.Incident.Lifecycle.{has_fire_id, is_current_of, put_episode, put_incident}
use fireviewer_backend.Incident.Rows.{
  Episode, FireIdCounter, IncidentSeries, episode_identity, incident_identity,
}
use fireviewer_backend.Incident.Sound.{IsSound, OneCurrent}
use fireviewer_backend.Incident.Sound.Written.{IsIncidentRow, IsRow, scalar_one_row, written-keys}
use fireviewer_backend.Incident.Transition.Coherence.{put-IsCoherent}
use fireviewer_backend.Incident.Visibility.{canonical_public_visibility}
use fireviewer_backend.Prelude.{
  ==_refl, All, All-imp, AllPairs, Bool, Bool-cases, List, String, [], any, ap, arith, inl, inr,
  select, some, subst, sym, true, ℕ, ◌==◌, ◌∙◌, ◌∷◌, ◌≡◌,
}
use fireviewer_backend.Session.{
  no_more, no_row, ok, one_or_none, scalar_one, scalar_one_or_none, scalar_one_unique,
}

pub record IsTarget (incidents : List IncidentSeries) (episodes : List Episode) (i : IncidentSeries)
    (e : Episode) : Type 0 where
  pub incident_row : All (IsIncidentRow i) incidents
  pub episode_row : All (IsRow e) episodes
  pub episode_here : any (λ x. x.id == e.id) episodes ≡ true
  pub owner : e.incident_id ≡ i.id
  pub current : e.is_current ≡ true

-- What holds of all rows holds of a row that is there.
pub All_here :
    (P : Episode → Type 0) (e : Episode) (xs : List Episode)
    → any (λ x. x.id == e.id) xs ≡ true
    → All (IsRow e) xs
    → All P xs
    → P e
unfolding any
All_here P e [] here rows h = cc
All_here P e (x ∷ xs) here rows h = elim (Bool-cases (x.id == e.id)) [
  | inl same ↦ subst P (rows.0 same) h.0
  | inr other ↦ All_here P e xs (rw other at here) rows.1 h.1
]

-- The one current episode of its incident.
only_current :
    (e : Episode) (xs : List Episode)
    → e.is_current ≡ true
    → any (λ x. x.id == e.id) xs ≡ true
    → All (IsRow e) xs
    → AllPairs OneCurrent xs
    → All (λ x. is_current_of e.incident_id x ≡ true → x ≡ e) xs
unfolding any
only_current e [] now here rows one = tt
only_current e (x ∷ xs) now here rows one = elim (Bool-cases (x.id == e.id)) [
  | inl same ↦ (
    λ _. rows.0 same,
    All-imp xs
        (λ y apart mine.
          let apart' : OneCurrent e y = subst (λ z. OneCurrent z y) (rows.0 same) apart in
          absurd (ground (arith, apart', mine, now)))
        one.0,
  )
  | inr other ↦
      let there : any (λ y. y.id == e.id) xs ≡ true = rw other at here in
      let apart : OneCurrent x e = All_here (OneCurrent x) e xs there rows.1 one.0 in
      (λ mine. absurd (ground (arith, mine, apart, now)), only_current e xs now there rows.1 one.1)
]

pub only_target :
    (incidents : List IncidentSeries) (episodes : List Episode) (i : IncidentSeries) (e : Episode)
    → IsTarget incidents episodes i e
    → AllPairs OneCurrent episodes
    → All (λ x. is_current_of i.id x ≡ true → x ≡ e) episodes
only_target incidents episodes i e t one =
    subst (λ k. All (λ x. is_current_of k x ≡ true → x ≡ e) episodes) t.owner
      (only_current e episodes t.current t.episode_here t.episode_row one)

-- Writing the target back, with the canonical visibility.
pub written-Sound :
    (incidents : List IncidentSeries) (episodes : List Episode) (counters : List FireIdCounter)
    (i i' : IncidentSeries) (e e' : Episode)
    → IsTarget incidents episodes i e
    → incident_identity i' ≡ incident_identity i
    → episode_identity e' ≡ episode_identity e
    → i'.public_visibility ≡ canonical_public_visibility e'.status e'.verification_state
    → IsSound incidents episodes counters
    → IsSound (put_incident i' incidents) (put_episode e' episodes) counters
written-Sound incidents episodes counters i i' e e' t same_i same_e visible s =
    let id : i'.id ≡ i.id = ap (λ (p : ℕ × String × ℕ). p.0) same_i in
    let place : i'.territory_code ≡ i.territory_code = ap (λ (p : ℕ × String × ℕ). p.1) same_i in
    let number : i'.sequence ≡ i.sequence = ap (λ (p : ℕ × String × ℕ). p.2) same_i in
    let key : e'.id ≡ e.id = ap (λ (p : ℕ × ℕ × Bool). p.0) same_e in
    let owner : e'.incident_id ≡ e.incident_id = ap (λ (p : ℕ × ℕ × Bool). p.1) same_e in
    let current : e'.is_current ≡ e.is_current = ap (λ (p : ℕ × ℕ × Bool). p.2) same_e in
    let only : All (λ x. is_current_of i'.id x ≡ true → x ≡ e) episodes =
      subst (λ k. All (λ x. is_current_of k x ≡ true → x ≡ e) episodes) (sym id)
        (only_target incidents episodes i e t s.one_current) in
    written-keys i i' e e' id place number key owner (λ c. sym current ∙ c) incidents episodes
      counters t.incident_row t.episode_row
      (put-IsCoherent i' e e' key (owner ∙ t.owner ∙ sym id) incidents episodes visible only
        s.coherent)
      s

-- The target of the queries for an incident and for its current episode.
module _ {A : Type 0} (key : A → ℕ) (p : A → Bool) where
  pub found_here :
      {a : A} (xs : List A) → scalar_one (select p xs) ≡ ok a → any (λ x. key x == key a) xs ≡ true
  unfolding select any
  found_here [] h = absurd (no_row p h)
  found_here {a} (x ∷ xs) h = elim (Bool-cases (p x)) [
    | inl e ↦
        let (same, _) = no_more p (select p xs) (rw e at h) in
        rw (ap key same) (ground (arith, ==_refl (key a)))
    | inr e ↦ ground (arith, found_here {a = a} xs (rw e at h))
  ]

pub lookup-IsTarget :
    (incidents : List IncidentSeries) (episodes : List Episode) (counters : List FireIdCounter)
    (fire_id : String) {i : IncidentSeries} {e : Episode}
    → scalar_one_or_none (select (has_fire_id fire_id) incidents) ≡ ok (some i)
    → scalar_one (select (is_current_of i.id) episodes) ≡ ok e
    → IsSound incidents episodes counters
    → IsTarget incidents episodes i e
lookup-IsTarget incidents episodes counters fire_id {i} {e} found current s =
    let (_, is_it) = scalar_one_unique (is_current_of i.id) episodes current in
    record {
      incident_row =
          scalar_one_row (λ (x : IncidentSeries). x.id) (has_fire_id fire_id) incidents
            s.incident_keys (one_or_none (select (has_fire_id fire_id) incidents) found);
      episode_row =
          scalar_one_row (λ (x : Episode). x.id) (is_current_of i.id) episodes s.episode_keys
            current;
      episode_here = found_here (λ (x : Episode). x.id) (is_current_of i.id) episodes current;
      owner = ground (arith, is_it);
      current = ground (arith, is_it);
    }
