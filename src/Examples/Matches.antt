-- ===== src/Examples/Matches.antt =====
-- An observation beside two incidents, one of which stands out; fire identifiers at the bound.
use fireviewer_backend.Doubles.{Doubles, Settings, TextTools}
use fireviewer_backend.Enums.{under_review}
use fireviewer_backend.Enums.Sources.{MatchDecision, SourceTrust}
use fireviewer_backend.Geospatial.{combine_uncertainties_m, haversine_m}
use fireviewer_backend.Incident.FireId.{format_fire_id, is_fire_id, is_territory_code}
use fireviewer_backend.Incident.FireId.Format.{format_fire_id-accepted}
use fireviewer_backend.Matching.Decide.{match_observation, ranks_before, reasons_of}
use fireviewer_backend.Matching.Decisions.{
  AreTop, StandsOut, match_observation-attach, match_observation-best, match_observation-create,
}
use fireviewer_backend.Matching.Order.{match_observation_shuffled}
use fireviewer_backend.Matching.Score.{
  Candidate, ObservationForMatch, ScoredCandidate, score_candidate, source_score, time_score,
  toponym_score,
}
use fireviewer_backend.Prelude.{
  All, List, Permᴰ, [], false, if◌then◌else◌, map, none, refl, some, sorted, str_eq, true, ◌*◌, ◌+◌,
  ◌-◌, ◌<◌, ◌↔◌, ◌∷◌, ◌≡◌,
}

-- A plane on which the distance is the sum of the differences and scores fall off by it.
abbrev pub plane : Doubles
plane = record {
  literal = λ t.
      if str_eq t "1.0"
      then 100
      else if str_eq t "0.0"
      then 0
      else if str_eq t "0.25"
      then 0
      else if str_eq t "0.15"
      then 0
      else 1;
  total_seconds = λ t. t;
  negate = λ x. x;
  absolute = λ x. x;
  squared = λ x. x;
  add = λ x y. x + y;
  subtract = λ x y. (x - y) + (y - x);
  multiply = λ x y. x * y;
  divide = λ x y. x;
  hypot = λ x y. x + y;
  exp = λ x. 90 - x;
  sin = λ x. x;
  cos = λ x. 1;
  asin = λ x. x;
  sqrt = λ x. x;
  radians = λ x. x;
  rounded = λ n x. x;
}

abbrev pub plain_texts : TextTools
plain_texts = record {
  casefold = λ s. s;
  compatibility_form = λ s. s;
  characters = λ s. s ∷ [];
  combining = λ s. false;
  words = λ s. s ∷ [];
  ratio = λ s t. 0;
}

abbrev pub policy : Settings
policy = record {
  matching_policy_id = "g1-default-v1";
  matching_create_below = 45;
  matching_auto_attach_above = 80;
  matching_min_margin = 15;
  matching_max_candidate_distance_m = 50;
  matching_max_incident_uncertainty_m = 10;
  matching_max_candidates = 2;
  matching_distance_scale_m = 1;
  matching_active_time_decay_hours = 72;
  matching_closed_time_decay_hours = 168;
  max_clock_skew_seconds = 300;
  corroboration_min_independent_proofs = 3;
}

abbrev seen : ObservationForMatch
seen = record {
  longitude = 10;
  latitude = 10;
  uncertainty_m = 1;
  observed_at = 100;
  toponyms = [];
  canonical_name_hint = none;
  source_trust = SourceTrust.unverified;
}

abbrev near : Candidate
near = record {
  incident_db_id = 1;
  episode_db_id = 7;
  fire_id = "FR-2A-00001";
  episode_id = "E01";
  reference_lon = 10;
  reference_lat = 10;
  uncertainty_m = 1;
  canonical_name = none;
  status = under_review;
  started_at = 50;
  last_observed_at = 90;
  ended_at = none;
}

abbrev far : Candidate
far = record near {
  incident_db_id = 2;
  episode_db_id = 8;
  fire_id = "FR-2A-00002";
  reference_lon = 70;
}

abbrev both : List Candidate
both = near ∷ far ∷ []

match_test :
    (match_observation plane policy plain_texts seen both false).decision ≡ MatchDecision.attach
unfolding match_observation sorted ranks_before score_candidate haversine_m combine_uncertainties_m
    time_score toponym_score source_score reasons_of
match_test = refl

shuffled_example :
    match_observation plane policy plain_texts seen both false
    ≡ match_observation plane policy plain_texts seen (far ∷ near ∷ []) false
shuffled_example =
    match_observation_shuffled plane policy plain_texts seen false (Permᴰ.swap refl refl)
      ((refl, tt), (tt, tt))

best_example :
    let r = match_observation plane policy plain_texts seen both false in
    AreTop plane policy plain_texts seen r.best r.second
      (map (score_candidate plane plain_texts policy seen) both)
best_example = match_observation-best plane policy plain_texts seen false both

create_example :
    ((match_observation plane policy plain_texts seen both false).decision ≡ MatchDecision.create)
    ↔ ((false ≡ false)
        × All (λ c. (score_candidate plane plain_texts policy seen c).score < 45) both)
create_example = match_observation-create plane policy plain_texts seen false both

attach_example :
    let r = match_observation plane policy plain_texts seen both false in
    (r.decision ≡ MatchDecision.attach) ↔ (
      (false ≡ false)
      × ((b : ScoredCandidate) × (r.best ≡ some b)
          × StandsOut plane policy plain_texts seen b r.second))
attach_example = match_observation-attach plane policy plain_texts seen false both

accepted_example : is_fire_id (format_fire_id "2A" 100000) ≡ false
unfolding is_territory_code
accepted_example = format_fire_id-accepted "2A" 100000 corsica
  where
    corsica : is_territory_code "2A" ≡ true
    corsica = refl
