-- ===== src/Evidence/Select/Keeps.antt =====
-- What every assignment of a hash keeps, the whole search keeps.
use fireviewer_backend.Evidence.Select.{
  BySource, Matched, Search, after_move, augment, augment_all, claim, get_match, is_visited,
  put_match, rows_of, try_rows, visit,
}
use fireviewer_backend.Incident.Rows.{Observation}
use fireviewer_backend.Prelude.{
  All, Bool, Bool-cases, List, Option, [], false, inl, inr, none, some, suc, true, zero, ℕ, ◌∷◌,
}

module _ (Q : Matched → Type 0) (G : Observation → Type 0)
    (assign : (o : Observation) (m : Matched) → G o → Q m → Q (put_match o.evidence_hash o m)) where
  module _ (recur : ℕ → Search → Bool × Search)
      (keep : (c : ℕ) (s : Search) → Q s.matched → Q (recur c s).1.matched) where
    claim-keeps :
        (o : Observation) (next : Search → Bool × Search) (held_by : Option Observation)
        (s : Search)
        → ((s' : Search) → Q s'.matched → Q (next s').1.matched)
        → G o
        → Q s.matched
        → Q (claim recur o next held_by s).1.matched
    claim-keeps o next none s h g q = assign o s.matched g q
    claim-keeps o next (some c) s h g q = moved (recur c.source_id s) (keep c.source_id s q)
      where
        moved : (r : Bool × Search) → Q r.1.matched → Q (after_move o next r).1.matched
        moved (true, s') q' = assign o s'.matched g q'
        moved (false, s') q' = h s' q'

    try_rows-keeps :
        (os : List Observation) (s : Search)
        → All G os
        → Q s.matched
        → Q (try_rows recur os s).1.matched
    unfolding try_rows
    try_rows-keeps [] s g q = q
    try_rows-keeps (o ∷ os) s g q = elim (Bool-cases (is_visited o.evidence_hash s.visited)) [
      | inl e ↦ rw e (try_rows-keeps os s g.1 q)
      | inr e ↦ rw e (
          claim-keeps o (try_rows recur os) (get_match o.evidence_hash s.matched) (visit o s)
            (λ s' q'. try_rows-keeps os s' g.1 q') g.0 q)
    ]

  module _ (by_source : BySource) (good : (s : ℕ) → All G (rows_of s by_source)) where
    augment-keeps :
        (fuel source : ℕ) (s : Search) → Q s.matched → Q (augment by_source fuel source s).1.matched
    unfolding augment
    augment-keeps zero source s q = q
    augment-keeps (suc fuel) source s q =
        try_rows-keeps (augment by_source fuel) (augment-keeps fuel) (rows_of source by_source) s
          (good source) q

    pub augment_all-keeps :
        (fuel : ℕ) (sources : List ℕ) (m : Matched) → Q m → Q (augment_all by_source fuel sources m)
    unfolding augment_all
    augment_all-keeps fuel [] m q = q
    augment_all-keeps fuel (s ∷ rest) m q =
        augment_all-keeps fuel rest _
          (augment-keeps fuel s (record { visited = []; matched = m }) q)
