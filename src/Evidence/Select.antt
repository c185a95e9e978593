-- ===== src/Evidence/Select.antt =====
-- services/evidence_policy.py: `_maximum_independent_set`, a matching between sources and evidence
-- hashes by augmenting paths. A dictionary is an association list in insertion order.
pub mod Step
pub mod Keeps
pub mod Grouping
pub mod Independence
pub mod Fuel
use Prim.Native.String.{compare}
use Prim.Native.Nat.{Ordering}
use fireviewer_backend.Enums.{VerificationState, corroborated, verified}
use fireviewer_backend.Incident.Rows.{Observation}
use fireviewer_backend.Prelude.{
  Bool, List, Option, String, [], all, any, false, if◌then◌else◌, leb, length, map, none, not, some,
  sorted, str_eq, suc, text_leb, true, zero, ℕ, ◌++◌, ◌==◌, ◌∷◌,
}

-- `_STATE_PRIORITY`; the query keeps the other states out.
abbrev pub priority : VerificationState → ℕ
priority verified = 0
priority corroborated = 1
priority _ = 2

-- The lexicographic order of the sort keys.
abbrev pub before_in_policy : Observation → Observation → Bool
before_in_policy a b =
    if priority a.verification_state == priority b.verification_state
    then (if a.observed_at == b.observed_at
        then text_leb a.observation_id b.observation_id
        else leb a.observed_at b.observed_at)
    else leb (priority a.verification_state) (priority b.verification_state)

abbrev pub before_by_id : Observation → Observation → Bool
before_by_id a b = text_leb a.observation_id b.observation_id

abbrev pub BySource : Type 0
BySource = List (ℕ × List Observation)

abbrev pub append_new : Observation → List Observation → List Observation
append_new o rows =
    if all (λ row. not (str_eq row.evidence_hash o.evidence_hash)) rows
    then rows ++ (o ∷ [])
    else rows

-- `by_source.setdefault(observation.source_id, [])`, and the row if its hash is new there.
unfoldable pub add_row : Observation → BySource → BySource
add_row o [] = (o.source_id, append_new o []) ∷ []
add_row o ((s, rows) ∷ rest) =
    if s == o.source_id then (s, append_new o rows) ∷ rest else (s, rows) ∷ add_row o rest

unfoldable pub group : List Observation → BySource → BySource
unfolding add_row
group [] by_source = by_source
group (o ∷ os) by_source = group os (add_row o by_source)

unfoldable pub rows_of : ℕ → BySource → List Observation
rows_of s [] = []
rows_of s ((k, rows) ∷ rest) = if k == s then rows else rows_of s rest

abbrev pub Matched : Type 0
Matched = List (String × Observation)

unfoldable pub get_match : String → Matched → Option Observation
get_match h [] = none
get_match h ((k, o) ∷ rest) = if str_eq k h then some o else get_match h rest

unfoldable pub put_match : String → Observation → Matched → Matched
put_match h o [] = (h, o) ∷ []
put_match h o ((k, c) ∷ rest) = if str_eq k h then (k, o) ∷ rest else (k, c) ∷ put_match h o rest

-- What a call of `augment` reads and writes.
pub record Search : Type 0 where
  pub visited : List String
  pub matched : Matched

unfoldable pub is_visited : String → List String → Bool
is_visited h visited = any (λ v. str_eq v h) visited

abbrev pub visit : Observation → Search → Search
visit o s = record s { visited = o.evidence_hash ∷ s.visited }

-- `matched_by_hash[observation.evidence_hash] = observation`
abbrev pub take_hash : Observation → Search → Search
take_hash o s = record s { matched = put_match o.evidence_hash o s.matched }

-- `if current is None or augment(current.source_id, visited_hashes)`, and the loop goes on if not.
abbrev pub after_move : Observation → (Search → Bool × Search) → Bool × Search → Bool × Search
after_move o next (true, s) = (true, take_hash o s)
after_move o next (false, s) = next s

abbrev pub claim :
    (ℕ → Search → Bool × Search)
    → Observation
    → (Search → Bool × Search)
    → Option Observation
    → Search
    → Bool × Search
claim recur o next none s = (true, take_hash o s)
claim recur o next (some c) s = after_move o next (recur c.source_id s)

-- The loop of `augment` over the rows of its source; `recur` is its own recursive call.
unfoldable pub try_rows : (ℕ → Search → Bool × Search) → List Observation → Search → Bool × Search
try_rows recur [] s = (false, s)
try_rows recur (o ∷ os) s =
    let skip = try_rows recur os s in
    let tried =
      claim recur o (try_rows recur os) (get_match o.evidence_hash s.matched) (visit o s) in
    if is_visited o.evidence_hash s.visited then skip else tried

-- `augment`: a nested call is made after one more hash was visited, so the fuel bounds the depth.
unfoldable pub augment : BySource → ℕ → ℕ → Search → Bool × Search
unfolding try_rows
augment by_source zero source s = (false, s)
augment by_source (suc fuel) source s =
    try_rows (augment by_source fuel) (rows_of source by_source) s

-- `for source_id in sorted(by_source): augment(source_id, set())`
unfoldable pub augment_all : BySource → ℕ → List ℕ → Matched → Matched
unfolding augment
augment_all by_source fuel [] m = m
augment_all by_source fuel (s ∷ rest) m =
    augment_all by_source fuel rest
      (augment by_source fuel s (record { visited = []; matched = m })).1.matched

abbrev pub values : Matched → List Observation
values m = map (λ (entry : String × Observation). entry.1) m

-- One more than the number of observations is more than the hashes that can be visited.
unfoldable pub maximum_independent_set : List Observation → List Observation
unfolding group augment_all
maximum_independent_set observations =
    let by_source = group (sorted before_in_policy observations) [] in
    sorted before_by_id (
      values (
        augment_all by_source (suc (length observations))
          (sorted leb (map (λ (entry : ℕ × List Observation). entry.0) by_source)) []))
