-- ===== src/Matching/Score.antt =====
-- domain/matching.py: the data of a match and `score_candidate`.
use fireviewer_backend.Doubles.{Doubles, Settings, TextTools}
use fireviewer_backend.Enums.{
  IncidentStatus, active_confirmed, closed, extinguished, monitoring, under_review,
}
use fireviewer_backend.Enums.Sources.{SourceTrust}
use fireviewer_backend.Geospatial.{combine_uncertainties_m, haversine_m}
use fireviewer_backend.Prelude.{
  List, Option, String, [], if◌then◌else◌, ltb, max, min, none, not, select, some, str_append,
  str_eq, ℕ, ◌++◌, ◌+◌, ◌-◌, ◌∷◌,
}

pub record Candidate : Type 0 where
  pub incident_db_id : ℕ
  pub episode_db_id : ℕ
  pub fire_id : String
  pub episode_id : String
  pub reference_lon : ℕ
  pub reference_lat : ℕ
  pub uncertainty_m : ℕ
  pub canonical_name : Option String
  pub status : IncidentStatus
  pub started_at : ℕ
  pub last_observed_at : ℕ
  pub ended_at : Option ℕ

pub record ObservationForMatch : Type 0 where
  pub longitude : ℕ
  pub latitude : ℕ
  pub uncertainty_m : ℕ
  pub observed_at : ℕ
  pub toponyms : List String
  pub canonical_name_hint : Option String
  pub source_trust : SourceTrust

pub record ScoredCandidate : Type 0 where
  pub candidate : Candidate
  pub score : ℕ
  pub factors : List (String × ℕ)
  pub distance_m : ℕ

-- `separator.join(pieces)`
abbrev pub join : String → List String → String
join separator [] = ""
join separator (s ∷ []) = s
join separator (s ∷ t ∷ rest) = str_append s (str_append separator (join separator (t ∷ rest)))

-- `[*texts, text]` where the text is given.
abbrev with_hint : List String → Option String → List String
with_hint names none = names
with_hint names (some hint) = if str_eq hint "" then names else names ++ (hint ∷ [])

-- The distance of two instants.
abbrev pub apart : ℕ → ℕ → ℕ
apart a b = (a - b) + (b - a)

module _ (T : TextTools) where
  unfoldable pub normalize_text : String → String
  normalize_text value = join " " (
      T.words (
        join "" (
          select (λ ch. not (T.combining ch))
            (T.characters (T.compatibility_form (T.casefold value))))))

  -- `max` over the names, the first of which is `name`.
  best_ratio : String → String → List String → ℕ
  best_ratio target name [] = T.ratio (normalize_text name) target
  best_ratio target name (next ∷ rest) =
      max (T.ratio (normalize_text name) target) (best_ratio target next rest)

module _ (F : Doubles) (T : TextTools) where
  abbrev ratio_of : List String → Option String → ℕ
  ratio_of [] name = F.literal "0.5"
  ratio_of (first ∷ rest) none = F.literal "0.5"
  ratio_of (first ∷ rest) (some name) =
      if str_eq name "" then F.literal "0.5" else best_ratio T (normalize_text T name) first rest

  unfoldable pub toponym_score : ObservationForMatch → Candidate → ℕ
  unfolding best_ratio
  toponym_score o c = ratio_of (with_hint o.toponyms o.canonical_name_hint) c.canonical_name

module _ (F : Doubles) where
  open F use {literal, total_seconds, negate, squared, add, multiply, divide, exp, rounded}

  unfoldable pub source_score : SourceTrust → ℕ
  source_score SourceTrust.unverified = literal "0.35"
  source_score SourceTrust.partner = literal "0.65"
  source_score SourceTrust.institutional = literal "0.90"
  source_score SourceTrust.operator = literal "0.95"

  abbrev hours : ℕ → ℕ
  hours duration = divide (total_seconds duration) (literal "3600.0")

  abbrev or_else : Option ℕ → ℕ → ℕ
  or_else none t = t
  or_else (some e) t = e

  -- The two branches of `_time_score`.
  abbrev open_score : Settings → ObservationForMatch → Candidate → ℕ
  open_score s o c = exp (
      divide (negate (hours (apart o.observed_at c.last_observed_at)))
        s.matching_active_time_decay_hours)

  abbrev ended_score : Settings → ObservationForMatch → ℕ → ℕ
  ended_score s o until =
      if ltb o.observed_at until
      then multiply (literal "0.25")
          (exp (divide (negate (hours (until - o.observed_at))) (literal "24.0")))
      else multiply (literal "0.80")
          (exp (divide (negate (hours (o.observed_at - until))) s.matching_closed_time_decay_hours))

  abbrev time_score_at : IncidentStatus → Settings → ObservationForMatch → Candidate → ℕ
  time_score_at IncidentStatus.candidate s o c = open_score s o c
  time_score_at under_review s o c = open_score s o c
  time_score_at active_confirmed s o c = open_score s o c
  time_score_at monitoring s o c = open_score s o c
  time_score_at extinguished s o c = ended_score s o (or_else c.ended_at c.last_observed_at)
  time_score_at closed s o c = ended_score s o (or_else c.ended_at c.last_observed_at)
  time_score_at IncidentStatus.suspended s o c = literal "0.0"
  time_score_at IncidentStatus.rejected s o c = literal "0.0"

  unfoldable pub time_score : Settings → ObservationForMatch → Candidate → ℕ
  time_score s o c = time_score_at c.status s o c

  module _ (T : TextTools) where
    unfoldable pub score_candidate : Settings → ObservationForMatch → Candidate → ScoredCandidate
    score_candidate s o c =
        let distance_m = haversine_m F o.longitude o.latitude c.reference_lon c.reference_lat in
        let denominator =
          add (combine_uncertainties_m F o.uncertainty_m c.uncertainty_m)
            s.matching_distance_scale_m in
        let distance_score =
          exp (multiply (negate (literal "0.5")) (squared (divide distance_m denominator))) in
        let time = time_score s o c in
        let toponym = toponym_score F T o c in
        let source = source_score o.source_trust in
        let score =
          add
            (add (add (multiply (literal "0.45") distance_score) (multiply (literal "0.25") time))
              (multiply (literal "0.15") toponym))
            (multiply (literal "0.15") source) in
        record {
          candidate = c;
          score = rounded 6 (max (literal "0.0") (min (literal "1.0") score));
          factors =
              ("distance", rounded 6 distance_score)
              ∷ ("time", rounded 6 time)
              ∷ ("toponym", rounded 6 toponym)
              ∷ ("source", rounded 6 source)
              ∷ [];
          distance_m = rounded 3 distance_m;
        }
