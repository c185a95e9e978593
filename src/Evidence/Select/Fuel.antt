-- ===== src/Evidence/Select/Fuel.antt =====
-- The fuel of the search: once it exceeds the number of hashes that are not visited yet, more fuel
-- changes nothing, and `maximum_independent_set` starts with enough.
-- The hashes of `hashes` that a search has not visited.
use fireviewer_backend.Evidence.Select.{
  BySource, Search, after_move, augment, before_in_policy, claim, get_match, group, is_visited,
  rows_of, try_rows, visit,
}
use fireviewer_backend.Evidence.Select.Grouping.{grouped_rows}
use fireviewer_backend.Evidence.Select.Step.{IsGrouped, Serves-augment}
use fireviewer_backend.Incident.Rows.{Observation}
use fireviewer_backend.Prelude.{
  All, All-of, All-sorted, Bool, Bool-cases, List, Option, String, [], any, ap, arith, eq_iff,
  eq_refl, false, inl, inr, length, map, none, not, refl, some, sorted, str_eq, subst, suc, sym,
  tally, true, zero, ℕ, ◌<◌, ◌∙◌, ◌∷◌, ◌≡◌, ◌≤◌,
}

abbrev pub unvisited : List String → Search → ℕ
unvisited hashes s = tally (λ u. not (is_visited u s.visited)) hashes

abbrev pub is_listed : List String → Observation → Bool
is_listed hashes o = any (λ u. str_eq o.evidence_hash u) hashes

fewer :
    (h : String) (visited : List String) (us : List String)
    → tally (λ u. not (is_visited u (h ∷ visited))) us ≤ tally (λ u. not (is_visited u visited)) us
unfolding tally is_visited any
fewer h visited [] = ground arith
fewer h visited (u ∷ us) = ground (arith, fewer h visited us)

-- A first visit takes one hash off the list.
strictly_fewer :
    (h : String) (visited : List String) (us : List String)
    → any (λ u. str_eq h u) us ≡ true
    → is_visited h visited ≡ false
    → tally (λ u. not (is_visited u (h ∷ visited))) us < tally (λ u. not (is_visited u visited)) us
unfolding tally is_visited any
strictly_fewer h visited [] listed new = cc
strictly_fewer h visited (u ∷ us) listed new = elim (Bool-cases (str_eq h u)) [
  | inl same ↦
      let seen : is_visited u visited ≡ false =
        subst (λ k. is_visited k visited ≡ false) ((eq_iff h u).0 same) new in
      ground (arith, fewer h visited us)
  | inr other ↦ ground (arith, strictly_fewer h visited us (ground arith) new)
]

-- What was visited stays visited.
Grows : Search → Search → Type 0
Grows s s' = (h : String) → is_visited h s.visited ≡ true → is_visited h s'.visited ≡ true

Grows-unvisited : (us : List String) (s s' : Search) → Grows s s' → unvisited us s' ≤ unvisited us s
unfolding Grows tally
Grows-unvisited [] s s' g = ground arith
Grows-unvisited (u ∷ us) s s' g = ground (arith, Grows-unvisited us s s' g, g u)

module _ (us : List String) (n : ℕ) (r r' : ℕ → Search → Bool × Search)
    (grows : (c : ℕ) (s : Search) → Grows s (r c s).1)
    (same : (c : ℕ) (s : Search) → unvisited us s < n → r c s ≡ r' c s) where
  after_move-same :
      (o : Observation) (next next' : Search → Bool × Search) (t : Bool × Search)
      → (t.0 ≡ false → next t.1 ≡ next' t.1)
      → after_move o next t ≡ after_move o next' t
  after_move-same o next next' (true, s) h = refl
  after_move-same o next next' (false, s) h = h refl

  claim-same :
      (o : Observation) (next next' : Search → Bool × Search) (by : Option Observation) (s : Search)
      → unvisited us s < n
      → ((s' : Search) → unvisited us s' < n → next s' ≡ next' s')
      → claim r o next by s ≡ claim r' o next' by s
  claim-same o next next' none s few h = refl
  claim-same o next next' (some c) s few h =
      after_move-same o next next' (r c.source_id s) (λ _.
        h (r c.source_id s).1
          (ground (arith, Grows-unvisited us s (r c.source_id s).1 (grows c.source_id s))))
      ∙ ap (after_move o next') (same c.source_id s few)

  try_rows-same :
      (os : List Observation) (s : Search)
      → All (λ o. is_listed us o ≡ true) os
      → unvisited us s < suc n
      → try_rows r os s ≡ try_rows r' os s
  unfolding try_rows
  try_rows-same [] s listed few = refl
  try_rows-same (o ∷ os) s listed few = elim (Bool-cases (is_visited o.evidence_hash s.visited)) [
    | inl e ↦ rw e (try_rows-same os s listed.1 few)
    | inr e ↦ rw e (
        claim-same o (try_rows r os) (try_rows r' os) (get_match o.evidence_hash s.matched)
          (visit o s) (ground (arith, strictly_fewer o.evidence_hash s.visited us listed.0 e))
          (λ s' few'. try_rows-same os s' listed.1 (ground (arith, few'))))
  ]

module _ (by_source : BySource) (us : List String) (grouped : IsGrouped by_source)
    (listed : (s : ℕ) → All (λ o. is_listed us o ≡ true) (rows_of s by_source)) where
  augment-Grows : (n source : ℕ) (s : Search) → Grows s (augment by_source n source s).1
  unfolding Grows
  augment-Grows n source s = (Serves-augment by_source grouped n source s).grown

  augment_enough :
      (n source : ℕ) (s : Search)
      → unvisited us s < n
      → augment by_source (suc n) source s ≡ augment by_source n source s
  unfolding augment
  augment_enough zero source s few = absurd (ground (arith, few))
  augment_enough (suc n) source s few =
      try_rows-same us n (augment by_source (suc n)) (augment by_source n) (augment-Grows (suc n))
        (augment_enough n) (rows_of source by_source) s (listed source) (ground (arith, few))

listed_more :
    (u : String) (us : List String) (os : List Observation)
    → All (λ o. is_listed us o ≡ true) os
    → All (λ o. is_listed (u ∷ us) o ≡ true) os
unfolding any
listed_more u us [] h = tt
listed_more u us (o ∷ os) h = (ground (arith, h.0), listed_more u us os h.1)

abbrev pub hashes_of : List Observation → List String
hashes_of os = map (λ (o : Observation). o.evidence_hash) os

All-listed : (os : List Observation) → All (λ o. is_listed (hashes_of os) o ≡ true) os
unfolding any
All-listed [] = tt
All-listed (o ∷ os) = (
  rw (eq_refl o.evidence_hash) refl,
  listed_more o.evidence_hash (hashes_of os) os (All-listed os),
)

unvisited-≤ : (os : List Observation) (s : Search) → unvisited (hashes_of os) s ≤ length os
unfolding tally
unvisited-≤ [] s = ground arith
unvisited-≤ (o ∷ os) s = ground (arith, unvisited-≤ os s)

-- With the fuel that `maximum_independent_set` gives it, `augment` satisfies its own recursive equation
-- from every state of the search.
pub augment_unrolls :
    (os : List Observation) (source : ℕ) (s : Search)
    → let rows = group (sorted before_in_policy os) [] in
      let fuel = suc (length os) in
      augment rows fuel source s ≡ try_rows (augment rows fuel) (rows_of source rows) s
augment_unrolls os source s =
    let rows = group (sorted before_in_policy os) [] in
    sym (
      (unfold augment in
        augment_enough rows (hashes_of os)
          (grouped_rows (λ k o. o.source_id ≡ k) (sorted before_in_policy os)
            (All-of (λ (o : Observation). o.source_id ≡ o.source_id) _ (λ o. refl)))
          (grouped_rows (λ k o. is_listed (hashes_of os) o ≡ true) (sorted before_in_policy os)
            (All-sorted (λ o. is_listed (hashes_of os) o ≡ true) before_in_policy os
              (All-listed os)))
          (suc (length os)) source s (ground (arith, unvisited-≤ os s))))
