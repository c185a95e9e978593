-- ===== src/Incident/Sound/Written.antt =====
-- Writing back the current episode of an incident and the incident keeps the tables sound: what
-- `transition_incident` and `recalculate_episode_evidence` do.
use fireviewer_backend.Incident.Lifecycle.{put_episode, put_incident}
use fireviewer_backend.Incident.Rows.{Episode, FireIdCounter, IncidentSeries}
use fireviewer_backend.Incident.Sound.{
  IsCounted, IsSound, OneCurrent, OtherIncident, OtherKey, OtherNumber, owns,
}
use fireviewer_backend.Incident.Transition.Coherence.{IsCoherent}
use fireviewer_backend.Prelude.{
  All, All-imp, All-imp2, All-select, All-update_to, AllPairs, Bool, Bool-cases, List, [], any, ap,
  arith, false, if◌then◌else◌, inl, inr, refl, select, subst, true, update, ℕ, ◌==◌, ◌||◌, ◌∙◌, ◌∷◌,
  ◌≡◌,
}
use fireviewer_backend.Session.{no_more, no_row, ok, scalar_one}

-- Replacing rows by a row of the same key.
module _ {A : Type 0} (P : A → Type 0) (R : A → A → Type 0) (p : A → Bool) (a' : A) where
  module _
      (same : (x y : A)
        → P x
        → P y
        → R x y
        → R (if p x then a' else x) (if p y then a' else y)) where
    All-written :
        (x : A) (ys : List A)
        → P x
        → All P ys
        → All (R x) ys
        → All (R (if p x then a' else x)) (update p (λ _. a') ys)
    unfolding update
    All-written x [] px ps rs = tt
    All-written x (y ∷ ys) px ps rs = (same x y px ps.0 rs.0, All-written x ys px ps.1 rs.1)

    pub AllPairs-written :
        (xs : List A) → All P xs → AllPairs R xs → AllPairs R (update p (λ _. a') xs)
    unfolding update
    AllPairs-written [] ps rs = tt
    AllPairs-written (x ∷ xs) ps rs =
        (All-written x xs ps.0 ps.1 rs.0, AllPairs-written xs ps.1 rs.1)

-- The rows with the key of `a` are `a`.
abbrev pub IsRow : Episode → Episode → Type 0
IsRow e x = (x.id == e.id) ≡ true → x ≡ e

abbrev pub IsIncidentRow : IncidentSeries → IncidentSeries → Type 0
IsIncidentRow i x = (x.id == i.id) ≡ true → x ≡ i

-- A row that the query of a key returns, or of another test, is the only one with its key.
module _ {A : Type 0} (key : A → ℕ) (p : A → Bool) where
  lone :
      (a : A) (xs : List A)
      → All (λ x. (key a == key x) ≡ false) xs
      → All (λ x. (key x == key a) ≡ true → x ≡ a) xs
  lone a xs h = All-imp xs (λ x other same. absurd (ground (arith, other, same))) h

  pub one_All : (P : A → Type 0) {a : A} (xs : List A) → All P xs → scalar_one xs ≡ ok a → P a
  unfolding scalar_one
  one_All P [] h e = cc
  one_All P (x ∷ []) h e = subst P (cc) h.0
  one_All P (x ∷ y ∷ xs) h e = cc

  pub scalar_one_row :
      {a : A} (xs : List A)
      → AllPairs (λ x y. (key x == key y) ≡ false) xs
      → scalar_one (select p xs) ≡ ok a
      → All (λ x. (key x == key a) ≡ true → x ≡ a) xs
  unfolding select
  scalar_one_row [] k h = absurd (no_row p h)
  scalar_one_row {a} (x ∷ xs) k h = elim (Bool-cases (p x)) [
    | inl e ↦
        let (same, _) = no_more p (select p xs) (rw e at h) in
        (
          (λ _. same),
          subst (λ b. All (λ y. (key y == key b) ≡ true → y ≡ b) xs) same (lone x xs k.0),
        )
    | inr e ↦
        let found : scalar_one (select p xs) ≡ ok a = rw e at h in
        let other : (key x == key a) ≡ false =
          one_All (λ y. (key x == key y) ≡ false) (select p xs)
            (All-select (λ y. (key x == key y) ≡ false) p xs k.0) found in
        ((λ same. cc), scalar_one_row xs k.1 found)
  ]

module _ (i i' : IncidentSeries) (e e' : Episode) (same_incident : i'.id ≡ i.id)
    (same_territory : i'.territory_code ≡ i.territory_code)
    (same_sequence : i'.sequence ≡ i.sequence) (same_episode : e'.id ≡ e.id)
    (same_owner : e'.incident_id ≡ e.incident_id)
    (lowered : e'.is_current ≡ true → e.is_current ≡ true) where
  episode_keys_kept :
      (x : Episode)
      → IsRow e x
      → let u : Episode = if x.id == e'.id then e' else x in
        (u.id ≡ x.id)
        × (u.incident_id ≡ x.incident_id)
        × (u.is_current ≡ true → x.is_current ≡ true)
  episode_keys_kept x row = elim (Bool-cases (x.id == e'.id)) [
    | inl h ↦
        let same : x ≡ e = row (ground (arith, h)) in
        rw (h, same) (same_episode, same_owner, lowered)
    | inr h ↦ rw h (refl, refl, λ c. c)
  ]

  incident_keys_kept :
      (x : IncidentSeries)
      → IsIncidentRow i x
      → let u : IncidentSeries = if x.id == i'.id then i' else x in
        (u.id ≡ x.id) × (u.territory_code ≡ x.territory_code) × (u.sequence ≡ x.sequence)
  incident_keys_kept x row = elim (Bool-cases (x.id == i'.id)) [
    | inl h ↦
        let same : x ≡ i = row (ground (arith, h)) in
        rw (h, same) (same_incident, same_territory, same_sequence)
    | inr h ↦ rw h (refl, refl, refl)
  ]

  pub still_owned :
      (x : Episode) (incidents : List IncidentSeries)
      → All (IsIncidentRow i) incidents
      → any (owns x) (put_incident i' incidents) ≡ any (owns x) incidents
  unfolding any update
  still_owned x [] rows = refl
  still_owned x (j ∷ js) rows =
      let (id, _, _) = incident_keys_kept j rows.0 in
      rw id (ap (λ b. (j.id == x.incident_id) || b) (still_owned x js rows.1))

  -- Everything but the visibility.
  pub written-keys :
      (incidents : List IncidentSeries) (episodes : List Episode) (counters : List FireIdCounter)
      → All (IsIncidentRow i) incidents
      → All (IsRow e) episodes
      → IsCoherent (put_incident i' incidents) (put_episode e' episodes)
      → IsSound incidents episodes counters
      → IsSound (put_incident i' incidents) (put_episode e' episodes) counters
  written-keys incidents episodes counters row erow coherent s = record {
    coherent = coherent;
    one_current =
        AllPairs-written (IsRow e) OneCurrent (λ x. x.id == e'.id) e'
          (λ x y rx ry h.
            let (_, ox, cx) = episode_keys_kept x rx in
            let (_, oy, cy) = episode_keys_kept y ry in rw (ox, oy) (ground (arith, h, cx, cy)))
          episodes erow s.one_current;
    owned =
        All-update_to (λ x. IsRow e x × (any (owns x) incidents ≡ true))
          (λ x. any (owns x) (put_incident i' incidents) ≡ true) (λ x. x.id == e'.id) (λ _. e')
          episodes
          (λ x h.
            let (_, owner, _) = episode_keys_kept x h.0 in
            still_owned (if x.id == e'.id then e' else x) incidents row
            ∙ ap (λ o. any (λ (j : IncidentSeries). j.id == o) incidents) owner
            ∙ h.1)
          (All-imp2 episodes (λ x a b. (a, b)) erow s.owned);
    episode_keys =
        AllPairs-written (IsRow e) OtherKey (λ x. x.id == e'.id) e'
          (λ x y rx ry h.
            let (kx, _, _) = episode_keys_kept x rx in
            let (ky, _, _) = episode_keys_kept y ry in rw (kx, ky) h)
          episodes erow s.episode_keys;
    incident_keys =
        AllPairs-written (IsIncidentRow i) OtherIncident (λ x. x.id == i'.id) i'
          (λ x y rx ry h.
            let (kx, _, _) = incident_keys_kept x rx in
            let (ky, _, _) = incident_keys_kept y ry in rw (kx, ky) h)
          incidents row s.incident_keys;
    counted =
        All-update_to (λ x. IsIncidentRow i x × IsCounted counters x) (IsCounted counters)
          (λ x. x.id == i'.id) (λ _. i') incidents
          (λ x h.
            let (_, territory, sequence) = incident_keys_kept x h.0 in rw (territory, sequence) h.1)
          (All-imp2 incidents (λ x a b. (a, b)) row s.counted);
    numbers =
        AllPairs-written (IsIncidentRow i) OtherNumber (λ x. x.id == i'.id) i'
          (λ x y rx ry h.
            let (_, tx, sx) = incident_keys_kept x rx in
            let (_, ty, sy) = incident_keys_kept y ry in rw (tx, sx, ty, sy) h)
          incidents row s.numbers;
  }
