-- ===== src/Examples/Proofs.antt =====
-- Two sources with one piece of evidence each, and a table that has none.
use fireviewer_backend.Enums.{
  active_confirmed, corroborated, limited, pending_review, public, unverified, verified, withheld,
}
use fireviewer_backend.Enums.Sources.{MatchDecision, SourceTrust, SourceType}
use fireviewer_backend.Evidence.Recalculate.{
  Recalculated, eligible_observations, is_eligible, is_verified, recalculate_episode_evidence,
}
use fireviewer_backend.Evidence.Recalculate.Soundness.{
  AreProofs, confirmation_withdrawn, corroborated-AreProofs, recalculate-canonical,
}
use fireviewer_backend.Evidence.Select.{
  Search, augment, before_in_policy, get_match, group, is_visited, maximum_independent_set,
  put_match, rows_of, try_rows,
}
use fireviewer_backend.Evidence.Select.Fuel.{augment_unrolls}
use fireviewer_backend.Evidence.Select.Independence.{maximum_independent_set-independent}
use fireviewer_backend.Evidence.Select.Step.{is_source}
use fireviewer_backend.Incident.Rows.{Episode, IncidentSeries, Observation, Source}
use fireviewer_backend.Incident.Visibility.{canonical_public_visibility}
use fireviewer_backend.Prelude.{
  List, String, [], all, any, arith, false, length, map, none, refl, select, some, sorted, str_eq,
  tally, true, ℕ, ◌+◌, ◌<◌, ◌∷◌, ◌≡◌, ◌≤◌,
}

abbrev pub observed : ℕ → String → String → Observation
observed n id hash = record {
  id = n;
  observation_id = id;
  source_id = n;
  observed_at = 10 + n;
  received_at = 20 + n;
  geometry_type = "Point";
  longitude = 8;
  latitude = 42;
  altitude_m = none;
  vertical_datum = none;
  horizontal_uncertainty_m = 100;
  territory_code = "2A";
  toponyms = [];
  canonical_name_hint = none;
  evidence_hash = hash;
  evidence_license = "CC0";
  external_reference = none;
  request_hash = "aa";
  verification_state = pending_review;
  public_spatial_mode = withheld;
  raw_purge_due_at = none;
  raw_purged_at = none;
  raw_retention_hold_reason = none;
  attached_incident_id = some 1;
  attached_episode_id = some 7;
  proposed_incident_id = none;
  proposed_episode_id = none;
  match_decision = MatchDecision.attach;
  match_score = none;
  margin_to_second_candidate = none;
  match_factors = [];
  review_reasons = [];
  policy_id = "v1";
  trace_id = "trace-0";
  version = 1;
}

abbrev two_proofs : List Observation
two_proofs = observed 1 "OBS-1" "aa" ∷ observed 2 "OBS-2" "bb" ∷ []

abbrev enabled_source : ℕ → Source
enabled_source n = record {
  id = n;
  source_key = "camera";
  source_type = SourceType.image;
  trust = SourceTrust.unverified;
  display_name = none;
  public_display_name = none;
  public_license = none;
  public_reference_url = none;
  public_transformations = [];
  credential_hash = none;
  enabled = true;
}

abbrev two_sources : List Source
two_sources = enabled_source 1 ∷ enabled_source 2 ∷ []

abbrev fire : IncidentSeries
fire = record {
  id = 1;
  fire_id = "FR-2A-000001";
  territory_code = "2A";
  sequence = 1;
  canonical_name = none;
  reference_lon = 8;
  reference_lat = 42;
  horizontal_uncertainty_m = 500;
  bbox_min_lon = 7;
  bbox_max_lon = 9;
  bbox_min_lat = 41;
  bbox_max_lat = 43;
  public_visibility = public;
  public_note = none;
  version = 2;
}

abbrev current : Episode
current = record {
  id = 7;
  incident_id = 1;
  episode_id = "EP-1";
  ordinal = 1;
  status = active_confirmed;
  verification_state = verified;
  corroborating_source_count = 0;
  evidence_basis_at = some 5;
  estimated_area_ha = none;
  evacuation_established = false;
  evacuation_basis = none;
  review_required = false;
  is_current = true;
  confidence_policy = "v1";
  started_at = 10;
  last_observed_at = 11;
  validated_at = some 5;
  ended_at = none;
  version = 3;
}

independent_example :
    ((s : ℕ) → tally (is_source s) (maximum_independent_set two_proofs) ≤ 1)
    × ((h : String)
        → tally (λ o. str_eq o.evidence_hash h) (maximum_independent_set two_proofs) ≤ 1)
independent_example = maximum_independent_set-independent two_proofs

abbrev counted : List Observation → Recalculated
counted table = recalculate_episode_evidence 2 50 none two_sources fire current table

corroborated_run : (counted two_proofs).result.verification_state ≡ corroborated
unfolding recalculate_episode_evidence is_eligible maximum_independent_set any sorted select rows_of
    all is_visited get_match put_match
corroborated_run = refl

corroborated_example :
    (proofs : List Observation) × AreProofs two_sources 7 two_proofs proofs
    × (2 ≤ length proofs)
    × ((counted two_proofs).result.independent_proof_count ≡ length proofs)
    × ((counted two_proofs).result.selected_observation_ids
        ≡ map (λ (o : Observation). o.observation_id) proofs)
    × (any is_verified (eligible_observations two_sources 7 two_proofs) ≡ false)
corroborated_example =
    corroborated-AreProofs 2 50 none two_sources fire current two_proofs corroborated_run

canonical_example :
    ((counted two_proofs).incident.public_visibility
      ≡ canonical_public_visibility
          (counted two_proofs).episode.status
          (counted two_proofs).episode.verification_state)
    × ((counted two_proofs).episode.verification_state
        ≡ (counted two_proofs).result.verification_state)
    × ((counted two_proofs).episode.status ≡ active_confirmed)
canonical_example = recalculate-canonical 2 50 none two_sources fire current two_proofs

-- The operator's confirmation of `current` does not survive the count over one unreviewed observation.
abbrev one_proof : List Observation
one_proof = observed 1 "OBS-1" "aa" ∷ []

unreviewed : any is_verified (eligible_observations two_sources 7 one_proof) ≡ false
unfolding eligible_observations any is_eligible sorted select
unreviewed = refl

one_is_few : length (maximum_independent_set (eligible_observations two_sources 7 one_proof)) < 2
unfolding eligible_observations is_eligible maximum_independent_set any sorted select rows_of all
    is_visited get_match put_match
one_is_few = ground arith

withdrawn_example :
    ((counted one_proof).episode.verification_state ≡ unverified)
    × ((counted one_proof).incident.public_visibility ≡ limited)
withdrawn_example =
    confirmation_withdrawn 2 50 none two_sources fire current one_proof (λ e. ground arith)
      unreviewed one_is_few

abbrev fresh_search : Search
fresh_search = record { visited = []; matched = [] }

unrolls_example :
    augment (group (sorted before_in_policy two_proofs) []) 3 1 fresh_search
    ≡ try_rows
        (augment (group (sorted before_in_policy two_proofs) []) 3)
        (rows_of 1 (group (sorted before_in_policy two_proofs) []))
        fresh_search
unrolls_example = augment_unrolls two_proofs 1 fresh_search
