-- ===== src/Matching/Decide.antt =====
-- domain/matching.py: `match_observation`.
use fireviewer_backend.Doubles.{Doubles, Settings, TextTools}
use fireviewer_backend.Enums.{IncidentStatus}
use fireviewer_backend.Enums.Sources.{MatchDecision}
use fireviewer_backend.Matching.Score.{
  Candidate, ObservationForMatch, ScoredCandidate, score_candidate,
}
use fireviewer_backend.Prelude.{
  Bool, List, Option, String, [], false, if◌then◌else◌, leb, ltb, map, none, some, sorted, str_eq,
  text_leb, true, ℕ, ◌++◌, ◌==◌, ◌∷◌,
}

pub record MatchResult : Type 0 where
  pub decision : MatchDecision
  pub best : Option ScoredCandidate
  pub second : Option ScoredCandidate
  pub margin : Option ℕ
  pub review_reasons : List String
  pub candidate_overflow : Bool

-- The order of the sort key: the higher score first, then the identifiers.
abbrev pub before_by_ids : Candidate → Candidate → Bool
before_by_ids a b =
    if a.incident_db_id == b.incident_db_id
    then leb a.episode_db_id b.episode_db_id
    else leb a.incident_db_id b.incident_db_id

abbrev pub before_by_episode : Candidate → Candidate → Bool
before_by_episode a b =
    if str_eq a.episode_id b.episode_id
    then before_by_ids a b
    else text_leb a.episode_id b.episode_id

abbrev pub before_by_fire : Candidate → Candidate → Bool
before_by_fire a b =
    if str_eq a.fire_id b.fire_id then before_by_episode a b else text_leb a.fire_id b.fire_id

unfoldable pub ranks_before : ScoredCandidate → ScoredCandidate → Bool
ranks_before a b =
    if a.score == b.score then before_by_fire a.candidate b.candidate else leb b.score a.score

abbrev pub first_of : List ScoredCandidate → Option ScoredCandidate
first_of [] = none
first_of (x ∷ xs) = some x

abbrev pub second_of : List ScoredCandidate → Option ScoredCandidate
second_of [] = none
second_of (x ∷ xs) = first_of xs

-- `candidate.status in {SUSPENDED, REJECTED}`
abbrev pub is_detached : IncidentStatus → Bool
is_detached IncidentStatus.suspended = true
is_detached IncidentStatus.rejected = true
is_detached _ = false

abbrev reason_if : Bool → String → List String
reason_if b reason = if b then reason ∷ [] else []

module _ (F : Doubles) (s : Settings) where
  abbrev pub margin_of : Option ScoredCandidate → Option ScoredCandidate → Option ℕ
  margin_of none second = none
  margin_of (some a) none = none
  margin_of (some a) (some b) = some (F.rounded 6 (F.subtract a.score b.score))

  abbrev margin_too_low : Option ℕ → Bool
  margin_too_low none = false
  margin_too_low (some margin) = ltb margin s.matching_min_margin

  -- The reasons for a review of the best candidate.
  unfoldable pub reasons_of : ScoredCandidate → Option ℕ → List String
  reasons_of best margin =
      reason_if (is_detached best.candidate.status) "candidate_not_attachable"
      ++ (reason_if (ltb best.score s.matching_auto_attach_above)
            "score_below_auto_attach_threshold"
          ++ reason_if (margin_too_low margin) "candidate_margin_too_low")

  abbrev decision_for : List String → MatchDecision
  decision_for [] = MatchDecision.attach
  decision_for (reason ∷ rest) = MatchDecision.review

  -- From the test of the overflow on.
  unfoldable pub decide :
      Bool → Option ScoredCandidate → Option ScoredCandidate → Option ℕ → MatchResult
  unfolding reasons_of
  decide true best second margin = record {
    decision = MatchDecision.review;
    best = best;
    second = second;
    margin = margin;
    review_reasons = "candidate_limit_exceeded" ∷ [];
    candidate_overflow = true;
  }
  decide false none second margin = record {
    decision = MatchDecision.create;
    best = none;
    second = second;
    margin = margin;
    review_reasons = [];
    candidate_overflow = false;
  }
  decide false (some best) second margin =
      if ltb best.score s.matching_create_below
      then record {
        decision = MatchDecision.create;
        best = some best;
        second = second;
        margin = margin;
        review_reasons = [];
        candidate_overflow = false;
      }
      else record {
        decision = decision_for (reasons_of best margin);
        best = some best;
        second = second;
        margin = margin;
        review_reasons = reasons_of best margin;
        candidate_overflow = false;
      }

  abbrev pub decide_ranked : Bool → List ScoredCandidate → MatchResult
  decide_ranked overflow scored =
      let best = first_of scored in
      let second = second_of scored in decide overflow best second (margin_of best second)

  unfoldable pub match_observation :
      TextTools → ObservationForMatch → List Candidate → Bool → MatchResult
  unfolding decide
  match_observation T o candidates overflow =
      decide_ranked overflow (sorted ranks_before (map (score_candidate F T s o) candidates))
