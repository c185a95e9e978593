-- ===== src/Incident/Sound/Reopened.antt =====
-- services/common.py: `create_reactivation_episode` keeps the tables sound.
use fireviewer_backend.Incident.Create.{
  Keys, Reactivated, create_reactivation_episode, new_episode, reactivated_rows,
}
use fireviewer_backend.Incident.Lifecycle.{is_current_of, put_episode, put_incident}
use fireviewer_backend.Incident.Rows.{Episode, IncidentSeries, Registry}
use fireviewer_backend.Incident.Sound.{Sound}
use fireviewer_backend.Incident.Sound.Written.{IsIncidentRow, IsRow, still_owned, written-keys}
use fireviewer_backend.Incident.Transition.Coherence.{IsCanonical, IsCoherent}
use fireviewer_backend.Prelude.{
  All, All-imp, All-update_to, Bool-cases, List, String, any, arith, false, if_cases, if◌then◌else◌,
  inl, inr, refl, true, ℕ, ◌+◌, ◌==◌, ◌∙◌, ◌∷◌, ◌≡◌, ◌⊎◌,
}

module _ (keys : Keys) (incident : IncidentSeries) (current : Episode) (observed_at : ℕ)
    (policy_id : String) (s : Registry) where
  abbrev r : Reactivated
  r = reactivated_rows keys.episode_key incident current observed_at policy_id s.episodes

  -- No episode of the incident stays current.
  none_current :
      (es : List Episode)
      → current.incident_id ≡ incident.id
      → All (IsRow current) es
      → All (λ x. is_current_of incident.id x ≡ true → x ≡ current) es
      → All (λ x. is_current_of incident.id x ≡ false) (put_episode r.previous es)
  unfolding reactivated_rows
  none_current es owner rows only =
      All-update_to (λ x. is_current_of incident.id x ≡ true → x ≡ current)
        (λ x. is_current_of incident.id x ≡ false) (λ x. x.id == current.id)
        (λ _. record current { is_current = false; version = current.version + 1 }) es
        (λ x h. lowered x h (Bool-cases (x.id == current.id))) only
    where
      lowered :
          (x : Episode)
          → (is_current_of incident.id x ≡ true → x ≡ current)
          → ((x.id == current.id) ≡ true) ⊎ ((x.id == current.id) ≡ false)
          → is_current_of incident.id (
              if x.id == current.id
              then record current { is_current = false; version = current.version + 1 }
              else x)
            ≡ false
      lowered x h (inl e) = rw e (ground arith)
      lowered x h (inr e) = rw e (elim (Bool-cases (is_current_of incident.id x)) [
        | inl mine ↦ absurd (ground (arith, h mine, e))
        | inr other ↦ other
      ])

  -- The incident with its episodes: none is current but the new one.
  IsCanonical-here :
      (e : Episode) (es : List Episode)
      → e ≡ r.episode
      → All (λ x. is_current_of incident.id x ≡ false) es
      → All (IsCanonical r.incident) (e ∷ es)
  unfolding reactivated_rows new_episode
  IsCanonical-here e es new none_here =
      ((λ _. inr (rw new refl)), All-imp es (λ x other mine. cc (mine, other)) none_here)

  IsCanonical-there :
      (j : IncidentSeries) (es : List Episode)
      → (j.id == incident.id) ≡ false
      → All (IsCanonical j) es
      → All (IsCanonical j) (r.episode ∷ put_episode r.previous es)
  unfolding reactivated_rows new_episode
  IsCanonical-there j es other c = (
    (λ mine. absurd (ground (arith, mine, other))),
    All-update_to (IsCanonical j) (IsCanonical j) (λ x. x.id == current.id)
        (λ _. record current { is_current = false; version = current.version + 1 }) es
        (λ x h. elim (Bool-cases (x.id == current.id)) [
          | inl e ↦ rw e (λ mine. absurd (ground (arith, mine)))
          | inr e ↦ rw e h
        ])
        c,
  )

  pub reactivate-Sound :
      All (IsIncidentRow incident) s.incidents
      → All (IsRow current) s.episodes
      → All (λ x. is_current_of incident.id x ≡ true → x ≡ current) s.episodes
      → current.incident_id ≡ incident.id
      → any (λ j. j.id == incident.id) s.incidents ≡ true
      → All (λ e. (e.id == keys.episode_key) ≡ false) s.episodes
      → Sound s
      → Sound (create_reactivation_episode keys incident current observed_at policy_id s).1
  unfolding create_reactivation_episode reactivated_rows new_episode
  reactivate-Sound rows erows only owner present fresh sound =
      let i' : IncidentSeries = r.incident in
      let e' : Episode = r.previous in
      let ended = none_current s.episodes owner erows only in
      let coherent : IsCoherent (put_incident i' s.incidents)
          (r.episode ∷ put_episode e' s.episodes) =
        All-update_to (λ j. All (IsCanonical j) s.episodes)
          (λ j. All (IsCanonical j) (r.episode ∷ put_episode e' s.episodes))
          (λ j. j.id == incident.id) (λ _. i') s.incidents
          (λ j c.
            if_cases
              (λ (k : IncidentSeries). All (IsCanonical k) (r.episode ∷ put_episode e' s.episodes))
              (j.id == incident.id)
              (λ e. IsCanonical-here r.episode (put_episode e' s.episodes) refl ended)
              (λ e. IsCanonical-there j s.episodes e c))
          sound.coherent in
      let kept =
        written-keys incident i' current e' refl refl refl refl refl (λ c. cc) s.incidents
          s.episodes s.counters rows erows
          (All-imp (put_incident i' s.incidents) (λ j c. c.1) coherent) sound in
      record {
        coherent = coherent;
        one_current = (
          All-imp (put_episode e' s.episodes) (λ x other. ground (arith, other)) ended,
          kept.one_current,
        );
        owned = (
          still_owned incident i' current e' refl refl refl refl refl (λ c. cc) r.episode
                s.incidents rows
              ∙ present,
          kept.owned,
        );
        episode_keys = (
          All-update_to (λ x. (x.id == keys.episode_key) ≡ false)
              (λ x. (keys.episode_key == x.id) ≡ false) (λ x. x.id == current.id) (λ _. e')
              s.episodes
              (λ x h.
                if_cases (λ (y : Episode). (keys.episode_key == y.id) ≡ false) (x.id == current.id)
                  (λ e. ground (arith, h, e)) (λ e. ground (arith, h)))
              fresh,
          kept.episode_keys,
        );
        incident_keys = kept.incident_keys;
        counted = kept.counted;
        numbers = kept.numbers;
      }
