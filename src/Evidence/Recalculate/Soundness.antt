-- ===== src/Evidence/Recalculate/Soundness.antt =====
-- What the recalculated state of an episode means, and what it does to the public visibility.
use fireviewer_backend.Enums.{
  IncidentStatus, VerificationState, active_confirmed, candidate, closed, corroborated,
  extinguished, limited, monitoring, same_visibility, same_visibility-≡, under_review, unverified,
}
use fireviewer_backend.Evidence.Recalculate.{
  Recalculated, by_time, eligible_observations, is_eligible, is_verified, next_episode,
  next_incident, next_state_of, recalculate_episode_evidence, row_changes,
}
use fireviewer_backend.Evidence.Recalculate.Assignments.{next_episode-HasState}
use fireviewer_backend.Evidence.Select.{maximum_independent_set}
use fireviewer_backend.Evidence.Select.Independence.{
  All-maximum_independent_set, maximum_independent_set-independent,
}
use fireviewer_backend.Evidence.Select.Step.{is_source}
use fireviewer_backend.Incident.Rows.{Episode, IncidentSeries, Observation, Source}
use fireviewer_backend.Incident.Visibility.{canonical_public_visibility}
use fireviewer_backend.Prelude.{
  All, All-Mem, All-select, All-select_self, All-sorted, Bool, List, Mem, Option, String, any,
  arith, false, if_cases, length, map, refl, select, str_eq, tally, true, ℕ, ◌<◌, ◌∙◌, ◌≡◌, ◌≢◌,
  ◌≤◌,
}

-- A set of independent proofs: rows of the table of observations that are eligible for the episode, with
-- no source and no evidence hash twice.
pub record AreProofs (sources : List Source) (episode_id : ℕ) (table proofs : List Observation)
    : Type 0 where
  pub rows : All (λ o. Mem o table) proofs
  pub eligible : All (λ o. is_eligible sources episode_id o ≡ true) proofs
  pub sources_differ : (s : ℕ) → tally (is_source s) proofs ≤ 1
  pub hashes_differ : (h : String) → tally (λ o. str_eq o.evidence_hash h) proofs ≤ 1

next_state_of-corroborated :
    (v : Bool) (n t : ℕ) → next_state_of v n t ≡ corroborated → (v ≡ false) × (t ≤ n)
unfolding next_state_of
next_state_of-corroborated v n t h = ground arith

next_state_of-few : (v : Bool) (n t : ℕ) → v ≡ false → n < t → next_state_of v n t ≡ unverified
unfolding next_state_of
next_state_of-few v n t h few = ground arith

next_incident-canonical :
    (e : Episode) (i : IncidentSeries)
    → (next_incident e i).0.public_visibility
      ≡ canonical_public_visibility e.status e.verification_state
unfolding next_incident
next_incident-canonical e i =
    let shown = canonical_public_visibility e.status e.verification_state in
    if_cases (λ (r : IncidentSeries × Bool). r.0.public_visibility ≡ shown)
      (same_visibility i.public_visibility shown) (λ h. same_visibility-≡ _ _ h) (λ _. refl)

unverified_is_limited :
    (s : IncidentStatus)
    → s ≢ IncidentStatus.suspended
    → canonical_public_visibility s unverified ≡ limited
unfolding canonical_public_visibility
unverified_is_limited candidate live = refl
unverified_is_limited under_review live = refl
unverified_is_limited active_confirmed live = refl
unverified_is_limited monitoring live = refl
unverified_is_limited extinguished live = refl
unverified_is_limited closed live = refl
unverified_is_limited IncidentStatus.suspended live = absurd (live refl)
unverified_is_limited IncidentStatus.rejected live = refl

unverified-limited :
    {s s' : IncidentStatus} {v : VerificationState}
    → s' ≡ s
    → v ≡ unverified
    → s ≢ IncidentStatus.suspended
    → canonical_public_visibility s' v ≡ limited
unverified-limited {s} status state live = rw status (rw state (unverified_is_limited s live))

module _ (threshold now : ℕ) (human : Option ℕ) (sources : List Source) (i : IncidentSeries)
    (e : Episode) (table : List Observation) where
  abbrev outcome : Recalculated
  outcome = recalculate_episode_evidence threshold now human sources i e table

  -- The episode is corroborated only on the strength of independent proofs among the rows of the table,
  -- as many as the threshold asks for. The result counts exactly them and names their identifiers, and
  -- no eligible observation is verified.
  pub corroborated-AreProofs :
      outcome.result.verification_state ≡ corroborated
      → (proofs : List Observation) × AreProofs sources e.id table proofs
        × (threshold ≤ length proofs)
        × (outcome.result.independent_proof_count ≡ length proofs)
        × (outcome.result.selected_observation_ids
            ≡ map (λ (o : Observation). o.observation_id) proofs)
        × (any is_verified (eligible_observations sources e.id table) ≡ false)
  unfolding recalculate_episode_evidence
  corroborated-AreProofs h =
      let os = eligible_observations sources e.id table in
      let (one_source, one_hash) = maximum_independent_set-independent os in
      (
        maximum_independent_set os,
        record {
          rows =
              All-maximum_independent_set os (λ o. Mem o table)
                (unfold eligible_observations in
                  All-sorted (λ o. Mem o table) by_time (select (is_eligible sources e.id) table)
                    (All-select (λ o. Mem o table) (is_eligible sources e.id) table
                      (All-Mem table)));
          eligible =
              All-maximum_independent_set os (λ o. is_eligible sources e.id o ≡ true)
                (unfold eligible_observations in
                  All-sorted (λ o. is_eligible sources e.id o ≡ true) by_time
                    (select (is_eligible sources e.id) table)
                    (All-select_self (is_eligible sources e.id) table));
          sources_differ = one_source;
          hashes_differ = one_hash;
        },
        (next_state_of-corroborated _ _ _ h).1,
        refl,
        refl,
        (next_state_of-corroborated _ _ _ h).0,
      )

  -- After a recalculation the incident shows the canonical visibility of the episode, and the episode
  -- has the recalculated state.
  pub recalculate-canonical :
      (outcome.incident.public_visibility
        ≡ canonical_public_visibility outcome.episode.status outcome.episode.verification_state)
      × (outcome.episode.verification_state ≡ outcome.result.verification_state)
      × (outcome.episode.status ≡ e.status)
  unfolding recalculate_episode_evidence
  recalculate-canonical =
      let os = eligible_observations sources e.id table in
      let selected = maximum_independent_set os in
      let next = next_state_of (any is_verified os) (length selected) threshold in
      let changed = any (row_changes next selected) os in
      let (state, status, _) = next_episode-HasState next selected now human changed e in
      (next_incident-canonical (next_episode next selected now human changed e).0 i, state, status)

  -- An episode with no verified observation and fewer independent proofs than the threshold is
  -- unverified after a recalculation, also one that an operator had confirmed, and its incident is
  -- limited unless the episode is suspended.
  pub confirmation_withdrawn :
      e.status ≢ IncidentStatus.suspended
      → any is_verified (eligible_observations sources e.id table) ≡ false
      → length (maximum_independent_set (eligible_observations sources e.id table)) < threshold
      → (outcome.episode.verification_state ≡ unverified)
        × (outcome.incident.public_visibility ≡ limited)
  unfolding recalculate_episode_evidence
  confirmation_withdrawn live none_verified few =
      let (shown, state, status) = recalculate-canonical in
      let demoted = state ∙ next_state_of-few _ _ _ none_verified few in
      (demoted, shown ∙ unverified-limited status demoted live)
