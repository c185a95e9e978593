-- ===== src/Doubles.antt =====
-- What the backend takes from Python's `math` module, from the arithmetic of its floats and from its
-- text libraries, and core/config.py: the settings that the modelled services read.
use fireviewer_backend.Prelude.{Bool, List, String, ℕ}

-- A float is its rank among the finite doubles, so `<`, `min` and `max` are those of the ranks.
-- `literal` reads a literal of the source, `total_seconds` is that of a timedelta in microseconds,
-- `rounded n x` is `round(x, n)`.
pub record Doubles : Type 0 where
  pub literal : String → ℕ
  pub total_seconds : ℕ → ℕ
  pub negate : ℕ → ℕ
  pub absolute : ℕ → ℕ
  pub squared : ℕ → ℕ
  pub add : ℕ → ℕ → ℕ
  pub subtract : ℕ → ℕ → ℕ
  pub multiply : ℕ → ℕ → ℕ
  pub divide : ℕ → ℕ → ℕ
  pub hypot : ℕ → ℕ → ℕ
  pub exp : ℕ → ℕ
  pub sin : ℕ → ℕ
  pub cos : ℕ → ℕ
  pub asin : ℕ → ℕ
  pub sqrt : ℕ → ℕ
  pub radians : ℕ → ℕ
  pub rounded : ℕ → ℕ → ℕ

-- `characters` gives the texts of one character of a text, `words` is `str.split` and `ratio a b` is
-- `SequenceMatcher(None, a, b).ratio()`.
pub record TextTools : Type 0 where
  pub casefold : String → String
  pub compatibility_form : String → String
  pub characters : String → List String
  pub combining : String → Bool
  pub words : String → List String
  pub ratio : String → String → ℕ

-- The fields of `Settings` that matching, detection and reviews read.
pub record Settings : Type 0 where
  pub matching_policy_id : String
  pub matching_create_below : ℕ
  pub matching_auto_attach_above : ℕ
  pub matching_min_margin : ℕ
  pub matching_max_candidate_distance_m : ℕ
  pub matching_max_incident_uncertainty_m : ℕ
  pub matching_max_candidates : ℕ
  pub matching_distance_scale_m : ℕ
  pub matching_active_time_decay_hours : ℕ
  pub matching_closed_time_decay_hours : ℕ
  pub max_clock_skew_seconds : ℕ
  pub corroboration_min_independent_proofs : ℕ
