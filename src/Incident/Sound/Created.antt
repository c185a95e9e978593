-- ===== src/Incident/Sound/Created.antt =====
-- services/common.py: `create_incident_and_episode` keeps the tables sound.
use fireviewer_backend.Doubles.{Doubles}
use fireviewer_backend.Incident.Create.{
  Keys, NewIncident, allocate_fire_id, counted_up, create_incident_and_episode, new_episode,
  new_incident, next_sequence_of,
}
use fireviewer_backend.Incident.Lifecycle.{is_current_of}
use fireviewer_backend.Incident.Rows.{Episode, FireIdCounter, IncidentSeries, Registry}
use fireviewer_backend.Incident.Sound.{IsCounted, Sound, owns}
use fireviewer_backend.Prelude.{
  All, All-imp, All-imp2, List, String, [], any, arith, eq_iff, eq_refl, false, if◌then◌else◌, inr,
  refl, str_eq, true, ℕ, ◌&&◌, ◌+◌, ◌==◌, ◌∷◌, ◌≡◌,
}

-- The counter of the territory goes up by one and the others stay.
next-counted_up :
    (c code : String) (rows : List FireIdCounter)
    → next_sequence_of c (counted_up code rows)
      ≡ (if str_eq c code then next_sequence_of code rows + 1 else next_sequence_of c rows)
unfolding next_sequence_of counted_up
next-counted_up c code [] = ground (arith, eq_iff code c, eq_iff c code)
next-counted_up c code (row ∷ rows) = ground (
  arith,
  next-counted_up c code rows,
  eq_iff row.territory_code code,
  eq_iff row.territory_code c,
  eq_iff c code,
)

still_counted :
    (code : String) (counters : List FireIdCounter) (is : List IncidentSeries)
    → All (IsCounted counters) is
    → All (IsCounted (counted_up code counters)) is
still_counted code counters is h =
    All-imp is
      (λ i e.
        ground
          (arith, e, next-counted_up i.territory_code code counters, eq_iff i.territory_code code))
      h

-- An episode of a table that owns it is not of a fresh incident.
not_fresh :
    (key : ℕ) (e : Episode) (is : List IncidentSeries)
    → All (λ i. (i.id == key) ≡ false) is
    → any (owns e) is ≡ true
    → (e.incident_id == key) ≡ false
unfolding any
not_fresh key e [] fresh h = cc
not_fresh key e (i ∷ is) fresh h = ground (arith, fresh.0, not_fresh key e is fresh.1, h)

none_fresh :
    (key : ℕ) (is : List IncidentSeries) (es : List Episode)
    → All (λ i. (i.id == key) ≡ false) is
    → All (λ e. any (owns e) is ≡ true) es
    → All (λ e. (e.incident_id == key) ≡ false) es
none_fresh key is es fresh h = All-imp es (λ e o. not_fresh key e is fresh o) h

module _ (F : Doubles) (keys : Keys) (n : NewIncident) where
  pub create-Sound :
      (s : Registry)
      → All (λ i. (i.id == keys.incident_key) ≡ false) s.incidents
      → All (λ e. (e.id == keys.episode_key) ≡ false) s.episodes
      → Sound s
      → Sound (create_incident_and_episode F keys n s).1
  unfolding create_incident_and_episode allocate_fire_id new_incident new_episode any
  create-Sound s fresh_incident fresh_episode sound =
      let others = none_fresh keys.incident_key s.incidents s.episodes fresh_incident sound.owned in
      record {
        coherent = (
          (λ _. inr refl, All-imp s.episodes (λ e o. λ c. absurd (other_owner e c o)) others),
          All-imp2 s.incidents (λ i fresh c. ((λ mine. absurd (other_incident i mine fresh)), c))
              fresh_incident sound.coherent,
        );
        one_current = (All-imp s.episodes (λ e o. ground (arith, o)) others, sound.one_current);
        owned = (ground arith, All-imp s.episodes (λ e o. ground (arith, o)) sound.owned);
        episode_keys =
            (All-imp s.episodes (λ e h. ground (arith, h)) fresh_episode, sound.episode_keys);
        incident_keys =
            (All-imp s.incidents (λ i h. ground (arith, h)) fresh_incident, sound.incident_keys);
        counted = (
          ground (
            arith,
            next-counted_up n.territory_code n.territory_code s.counters,
            eq_refl n.territory_code,
          ),
          still_counted n.territory_code s.counters s.incidents sound.counted,
        );
        numbers = (All-imp s.incidents (λ i c. new_number i c) sound.counted, sound.numbers);
      }
    where
      other_owner :
          (e : Episode)
          → is_current_of keys.incident_key e ≡ true
          → (e.incident_id == keys.incident_key) ≡ false
          → ⊥
      other_owner e mine o = ground (arith, mine, o)

      other_incident :
          (i : IncidentSeries)
          → ((keys.incident_key == i.id) && true) ≡ true
          → (i.id == keys.incident_key) ≡ false
          → ⊥
      other_incident i mine fresh = ground (arith, mine, fresh)

      new_number :
          (i : IncidentSeries)
          → IsCounted s.counters i
          → (str_eq n.territory_code i.territory_code
              && (next_sequence_of n.territory_code s.counters == i.sequence))
            ≡ false
      new_number i c = ground (arith, c, eq_iff n.territory_code i.territory_code)
