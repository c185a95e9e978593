-- ===== src/Evidence/Recalculate.antt =====
-- services/evidence_policy.py: `recalculate_episode_evidence`. The rows it is given and the table of
-- observations go in, the rows that it leaves come out.
pub mod Assignments
pub mod Soundness
use fireviewer_backend.Enums.{
  EvidenceSpatialMode, VerificationState, corroborated, generalized, pending_review, same_mode,
  same_verification, same_visibility, unverified, verified, withheld,
}
use fireviewer_backend.Evidence.Select.{maximum_independent_set}
use fireviewer_backend.Incident.Rows.{Episode, IncidentSeries, Observation, Source}
use fireviewer_backend.Incident.Visibility.{canonical_public_visibility}
use fireviewer_backend.Prelude.{
  Bool, List, Option, String, [], any, false, if◌then◌else◌, leb, length, ltb, map, max, none, not,
  select, some, sorted, text_leb, true, update, ℕ, ◌&&◌, ◌+◌, ◌==◌, ◌||◌, ◌∷◌,
}

pub record EvidencePolicyResult : Type 0 where
  pub previous_state : VerificationState
  pub verification_state : VerificationState
  pub independent_proof_count : ℕ
  pub selected_observation_ids : List String
  pub episode_changed : Bool
  pub incident_visibility_changed : Bool

unfoldable pub became_corroborated : EvidencePolicyResult → Bool
became_corroborated r =
    not (same_verification r.previous_state corroborated)
    && same_verification r.verification_state corroborated

-- `_ELIGIBLE_STATES`
abbrev pub is_eligible_state : VerificationState → Bool
is_eligible_state pending_review = true
is_eligible_state corroborated = true
is_eligible_state verified = true
is_eligible_state _ = false

abbrev pub is_id : ℕ → Option ℕ → Bool
is_id n none = false
is_id n (some m) = m == n

-- The join with the enabled sources.
unfoldable pub has_enabled_source : List Source → Observation → Bool
has_enabled_source sources o = any (λ (s : Source). s.id == o.source_id && s.enabled) sources

-- The WHERE clause of the query.
unfoldable pub is_eligible : List Source → ℕ → Observation → Bool
unfolding has_enabled_source
is_eligible sources episode_id o =
    is_id episode_id o.attached_episode_id
    && is_eligible_state o.verification_state
    && has_enabled_source sources o

abbrev pub by_time : Observation → Observation → Bool
by_time a b =
    if a.observed_at == b.observed_at
    then text_leb a.observation_id b.observation_id
    else leb a.observed_at b.observed_at

unfoldable pub eligible_observations : List Source → ℕ → List Observation → List Observation
eligible_observations sources episode_id table =
    sorted by_time (select (is_eligible sources episode_id) table)

abbrev pub is_verified : Observation → Bool
is_verified o = same_verification o.verification_state verified

unfoldable pub next_state_of : Bool → ℕ → ℕ → VerificationState
next_state_of verified_exists proofs threshold =
    if verified_exists then verified else if leb threshold proofs then corroborated else unverified

unfoldable pub is_selected : List Observation → Observation → Bool
is_selected selected o = any (λ (s : Observation). s.id == o.id) selected

abbrev corroborated_state : Bool → VerificationState
corroborated_state chosen = if chosen then corroborated else pending_review

abbrev corroborated_mode : Bool → EvidenceSpatialMode
corroborated_mode chosen = if chosen then generalized else withheld

-- Whether the loop over the observations changes a row, and the row that it leaves.
unfoldable pub row_changes : VerificationState → List Observation → Observation → Bool
row_changes corroborated selected o =
    not (same_verification o.verification_state (corroborated_state (is_selected selected o)))
    || not (same_mode o.public_spatial_mode (corroborated_mode (is_selected selected o)))
row_changes unverified selected o = same_verification o.verification_state corroborated
row_changes _ selected o = false

abbrev written_row : VerificationState → Bool → Observation → Observation
written_row corroborated chosen o = record o {
  verification_state = corroborated_state chosen;
  public_spatial_mode = corroborated_mode chosen;
  version = o.version + 1;
}
written_row _ chosen o = record o {
  verification_state = pending_review;
  public_spatial_mode = withheld;
  version = o.version + 1;
}

unfoldable pub next_row : VerificationState → List Observation → Observation → Observation
unfolding row_changes
next_row next selected o =
    if row_changes next selected o then written_row next (is_selected selected o) o else o

-- The assignments to the episode, each with the flag `episode_changed`.
abbrev pub set_state : VerificationState → Episode × Bool → Episode × Bool
set_state next (e, changed) =
    if same_verification e.verification_state next
    then (e, changed)
    else (record e { verification_state = next }, true)

abbrev pub set_count : ℕ → Episode × Bool → Episode × Bool
set_count n (e, changed) =
    if e.corroborating_source_count == n
    then (e, changed)
    else (record e { corroborating_source_count = n }, true)

abbrev pub set_human : Option ℕ → Episode × Bool → Episode × Bool
set_human none (e, changed) = (e, changed)
set_human (some at) (e, changed) =
    (record e { validated_at = some at; evidence_basis_at = some at }, true)

abbrev pub set_basis : Option ℕ → ℕ → Episode × Bool → Episode × Bool
set_basis none now (e, changed) = (record e { evidence_basis_at = some now }, true)
set_basis (some at) now (e, changed) = (e, changed)

abbrev pub clear_basis : Option ℕ → Episode × Bool → Episode × Bool
clear_basis none (e, changed) = (e, changed)
clear_basis (some at) (e, changed) = (record e { evidence_basis_at = none }, true)

abbrev pub set_latest : Option ℕ → Episode × Bool → Episode × Bool
set_latest none (e, changed) = (e, changed)
set_latest (some at) (e, changed) =
    if ltb e.last_observed_at at then (record e { last_observed_at = at }, true) else (e, changed)

-- `max((... for item in selected), default=None)`
unfoldable pub latest : List Observation → Option ℕ
latest [] = none
latest (o ∷ os) = elim (latest os) [
  | none ↦ some o.observed_at
  | some t ↦ some (max o.observed_at t)
]

-- The final branch on the next state, from the previous one.
abbrev pub set_dates :
    VerificationState → VerificationState → ℕ → Option ℕ → Episode × Bool → Episode × Bool
set_dates unverified previous now newest (e, changed) =
    if same_verification previous corroborated
    then clear_basis e.evidence_basis_at (e, changed)
    else (e, changed)
set_dates _ previous now newest (e, changed) =
    set_latest newest (set_basis e.evidence_basis_at now (e, changed))

abbrev pub bump : Episode × Bool → Episode × Bool
bump (e, changed) = if changed then (record e { version = e.version + 1 }, true) else (e, false)

unfoldable pub next_episode :
    VerificationState → List Observation → ℕ → Option ℕ → Bool → Episode → Episode × Bool
next_episode next selected now human_validated_at observations_changed e = bump (
    set_dates next e.verification_state now (latest selected) (
      set_human human_validated_at
        (set_count (length selected) (set_state next (e, observations_changed)))))

unfoldable pub next_incident : Episode → IncidentSeries → IncidentSeries × Bool
next_incident e i =
    let visibility = canonical_public_visibility e.status e.verification_state in
    if same_visibility i.public_visibility visibility
    then (i, false)
    else (record i { public_visibility = visibility; version = i.version + 1 }, true)

pub record Recalculated : Type 0 where
  pub incident : IncidentSeries
  pub episode : Episode
  pub observations : List Observation
  pub result : EvidencePolicyResult

module _ (threshold now : ℕ) (human_validated_at : Option ℕ) (sources : List Source) where
  unfoldable pub recalculate_episode_evidence :
      IncidentSeries → Episode → List Observation → Recalculated
  unfolding eligible_observations next_state_of next_episode next_incident next_row
  recalculate_episode_evidence incident episode table =
      let observations = eligible_observations sources episode.id table in
      let selected = maximum_independent_set observations in
      let next = next_state_of (any is_verified observations) (length selected) threshold in
      let moved =
        next_episode next selected now human_validated_at
          (any (row_changes next selected) observations) episode in
      let shown = next_incident moved.0 incident in
      record {
        incident = shown.0;
        episode = moved.0;
        observations = update (is_eligible sources episode.id) (next_row next selected) table;
        result = record {
          previous_state = episode.verification_state;
          verification_state = next;
          independent_proof_count = length selected;
          selected_observation_ids = map (λ (o : Observation). o.observation_id) selected;
          episode_changed = moved.1;
          incident_visibility_changed = shown.1;
        };
      }
