-- ===== src/Evidence/Select/Grouping.antt =====
-- The grouping of observations by source: each source has one entry, and its own rows.
use fireviewer_backend.Evidence.Select.{BySource, add_row, append_new, group, rows_of}
use fireviewer_backend.Incident.Rows.{Observation}
use fireviewer_backend.Prelude.{
  ==_iff, All, All-append, Bool, Bool-cases, List, [], all, arith, false, if◌then◌else◌, inl, inr,
  map, max, not, refl, str_eq, subst, tally, true, ℕ, ◌++◌, ◌==◌, ◌∷◌, ◌≡◌, ◌≤◌,
}

abbrev pub keys : BySource → List ℕ
keys by_source = map (λ (entry : ℕ × List Observation). entry.0) by_source

rows_of-add_row :
    (s : ℕ) (o : Observation) (b : BySource)
    → rows_of s (add_row o b)
      ≡ (if o.source_id == s then append_new o (rows_of s b) else rows_of s b)
unfolding rows_of add_row
rows_of-add_row s o [] = refl
rows_of-add_row s o ((k, rows) ∷ rest) = ground (arith, rows_of-add_row s o rest)

tally-keys-add_row :
    (s : ℕ) (o : Observation) (b : BySource)
    → tally (λ k. k == s) (keys (add_row o b)) ≡ (
        if o.source_id == s
        then max 1 (tally (λ k. k == s) (keys b))
        else tally (λ k. k == s) (keys b))
unfolding tally add_row
tally-keys-add_row s o [] = ground arith
tally-keys-add_row s o ((k, rows) ∷ rest) = ground (arith, tally-keys-add_row s o rest)

-- One entry for each source.
pub record IsKeyed (b : BySource) : Type 0 where
  pub once : (s : ℕ) → tally (λ k. k == s) (keys b) ≤ 1

group-IsKeyed : (os : List Observation) (b : BySource) → IsKeyed b → IsKeyed (group os b)
unfolding group
group-IsKeyed [] b h = h
group-IsKeyed (o ∷ os) b h =
    group-IsKeyed os (add_row o b)
      (record { once = λ s. ground (arith, h.once s, tally-keys-add_row s o b) })

module _ (P : ℕ → Observation → Type 0) where
  All-append_new :
      (s : ℕ) (o : Observation) (rows : List Observation)
      → P s o
      → All (P s) rows
      → All (P s) (append_new o rows)
  All-append_new s o rows p h =
      pick (all (λ row. not (str_eq row.evidence_hash o.evidence_hash)) rows)
    where
      pick : (b : Bool) → All (P s) (if b then rows ++ (o ∷ []) else rows)
      pick true = All-append (P s) rows (o ∷ []) h (p, tt)
      pick false = h

  -- What holds of each observation under its own source holds of the rows of each source.
  group-rows :
      (os : List Observation) (b : BySource)
      → All (λ o. P o.source_id o) os
      → ((s : ℕ) → All (P s) (rows_of s b))
      → (s : ℕ) → All (P s) (rows_of s (group os b))
  unfolding group
  group-rows [] b h rows = rows
  group-rows (o ∷ os) b h rows = group-rows os (add_row o b) h.1 added
    where
      added : (s : ℕ) → All (P s) (rows_of s (add_row o b))
      added s = elim (Bool-cases (o.source_id == s)) [
        | inl e ↦
            rw (rows_of-add_row s o b, e)
              (All-append_new s o (rows_of s b)
                (subst (λ k. P k o) ((==_iff o.source_id s).0 e) h.0) (rows s))
        | inr e ↦ rw (rows_of-add_row s o b, e) (rows s)
      ]

pub grouped_rows :
    (P : ℕ → Observation → Type 0) (os : List Observation)
    → All (λ o. P o.source_id o) os
    → (s : ℕ) → All (P s) (rows_of s (group os []))
grouped_rows P os h = group-rows P os [] h (λ s. unfold rows_of in tt)

pub grouped-IsKeyed : (os : List Observation) → IsKeyed (group os [])
grouped-IsKeyed os = group-IsKeyed os [] (record { once = λ s. unfold tally in omega arith })
