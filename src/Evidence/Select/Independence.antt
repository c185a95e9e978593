-- ===== src/Evidence/Select/Independence.antt =====
-- The selected observations are independent: no source and no evidence hash is used twice.
use fireviewer_backend.Evidence.Select.{
  BySource, Matched, Search, augment, augment_all, before_by_id, before_in_policy, group,
  maximum_independent_set, put_match, values,
}
use fireviewer_backend.Evidence.Select.Grouping.{grouped-IsKeyed, grouped_rows, keys}
use fireviewer_backend.Evidence.Select.Keeps.{augment_all-keeps}
use fireviewer_backend.Evidence.Select.Step.{IsGrouped, Serves-augment, held, is_source}
use fireviewer_backend.Incident.Rows.{Observation}
use fireviewer_backend.Prelude.{
  All, All-sorted, All-of, Bool, Bool-cases, List, String, [], ap, arith, eq_iff, false,
  if◌then◌else◌, inl, inr, leb, length, max, refl, sorted, str_eq, suc, sym, tally, tally-sorted,
  true, ℕ, ◌+◌, ◌==◌, ◌∷◌, ◌≡◌, ◌≤◌,
}

-- In a matching each hash stands once, with an observation of that hash.
record IsMatching (m : Matched) : Type 0 where
  hashes : All (λ entry. entry.1.evidence_hash ≡ entry.0) m
  once : (h : String) → tally (λ (entry : String × Observation). str_eq entry.0 h) m ≤ 1

put_match-hashes :
    (o : Observation) (m : Matched)
    → All (λ (entry : String × Observation). entry.1.evidence_hash ≡ entry.0) m
    → All
        (λ (entry : String × Observation). entry.1.evidence_hash ≡ entry.0)
        (put_match o.evidence_hash o m)
unfolding put_match
put_match-hashes o [] h = (refl, tt)
put_match-hashes o ((k, c) ∷ rest) h = elim (Bool-cases (str_eq k o.evidence_hash)) [
  | inl e ↦ rw e (sym ((eq_iff k o.evidence_hash).0 e), h.1)
  | inr e ↦ rw e (h.0, put_match-hashes o rest h.1)
]

tally-put_match :
    (h : String) (o : Observation) (m : Matched)
    → tally (λ (entry : String × Observation). str_eq entry.0 h) (put_match o.evidence_hash o m) ≡ (
        if str_eq o.evidence_hash h
        then max 1 (tally (λ (entry : String × Observation). str_eq entry.0 h) m)
        else tally (λ (entry : String × Observation). str_eq entry.0 h) m)
unfolding tally put_match
tally-put_match h o [] = ground arith
tally-put_match h o ((k, c) ∷ rest) = ground (
  arith,
  eq_iff k o.evidence_hash,
  eq_iff k h,
  eq_iff o.evidence_hash h,
  tally-put_match h o rest,
)

put_match-IsMatching :
    (o : Observation) (m : Matched) → IsMatching m → IsMatching (put_match o.evidence_hash o m)
put_match-IsMatching o m a = record {
  hashes = put_match-hashes o m a.hashes;
  once = λ h. ground (arith, a.once h, tally-put_match h o m);
}

tally_hash-values :
    (h : String) (m : Matched)
    → All (λ (entry : String × Observation). entry.1.evidence_hash ≡ entry.0) m
    → tally (λ o. str_eq o.evidence_hash h) (values m)
      ≡ tally (λ (entry : String × Observation). str_eq entry.0 h) m
unfolding tally
tally_hash-values h [] a = refl
tally_hash-values h ((k, o) ∷ rest) a =
    rw a.0 (ap (λ n. (if str_eq k h then 1 else 0) + n) (tally_hash-values h rest a.1))

held-values : (s : ℕ) (m : Matched) → tally (is_source s) (values m) ≡ held s m
unfolding tally held
held-values s [] = refl
held-values s ((k, o) ∷ rest) = ground (arith, held-values s rest)

-- Each source is tried once, so it comes to hold one hash at most.
held-augment_all :
    (by_source : BySource) (fuel : ℕ) (s : ℕ) (sources : List ℕ) (m : Matched)
    → IsGrouped by_source
    → held s (augment_all by_source fuel sources m) ≤ held s m + tally (λ k. k == s) sources
unfolding augment_all tally
held-augment_all by_source fuel s [] m g = omega arith
held-augment_all by_source fuel s (k ∷ rest) m g =
    let start : Search = record { visited = []; matched = m } in
    let r = augment by_source fuel k start in
    ground (
      arith,
      (Serves-augment by_source g fuel k start).counted s,
      held-augment_all by_source fuel s rest r.1.matched g,
    )

module _ (os : List Observation) where
  abbrev by_source : BySource
  by_source = group (sorted before_in_policy os) []

  abbrev found : Matched
  found = augment_all by_source (suc (length os)) (sorted leb (keys by_source)) []

  grouped : IsGrouped by_source
  grouped =
      grouped_rows (λ s o. o.source_id ≡ s) (sorted before_in_policy os)
        (All-of (λ (o : Observation). o.source_id ≡ o.source_id) _ (λ o. refl))

  found-IsMatching : IsMatching found
  found-IsMatching =
      augment_all-keeps IsMatching (λ o. Unit {0}) (λ o m _ h. put_match-IsMatching o m h) by_source
        (λ s. All-of (λ o. Unit {0}) _ (λ o. tt)) (suc (length os)) (sorted leb (keys by_source)) []
        (record { hashes = tt; once = λ h. unfold tally in omega arith })

  -- No source is selected twice, and no evidence hash is.
  pub maximum_independent_set-independent :
      ((s : ℕ) → tally (is_source s) (maximum_independent_set os) ≤ 1)
      × ((h : String) → tally (λ o. str_eq o.evidence_hash h) (maximum_independent_set os) ≤ 1)
  unfolding maximum_independent_set held tally
  maximum_independent_set-independent = (
    λ s. omega (
      arith,
      tally-sorted before_by_id (is_source s) (values found),
      held-values s found,
      held-augment_all by_source (suc (length os)) s (sorted leb (keys by_source)) [] grouped,
      tally-sorted leb (λ k. k == s) (keys by_source),
      (grouped-IsKeyed (sorted before_in_policy os)).once s,
    ),
    λ h. omega (
      arith,
      tally-sorted before_by_id (λ o. str_eq o.evidence_hash h) (values found),
      tally_hash-values h found found-IsMatching.hashes,
      found-IsMatching.once h,
    ),
  )

  values-put_match :
      (P : Observation → Type 0) (o : Observation) (m : Matched)
      → P o
      → All P (values m)
      → All P (values (put_match o.evidence_hash o m))
  unfolding put_match
  values-put_match P o [] p h = (p, tt)
  values-put_match P o ((k, c) ∷ rest) p h =
      pick (str_eq k o.evidence_hash) (values-put_match P o rest p h.1)
    where
      pick :
          (b : Bool)
          → All P (values (put_match o.evidence_hash o rest))
          → All P (values (if b then (k, o) ∷ rest else (k, c) ∷ put_match o.evidence_hash o rest))
      pick true a = (p, h.1)
      pick false a = (h.0, a)

  -- Only given observations are selected: what holds of all of them holds of the selection.
  pub All-maximum_independent_set :
      (P : Observation → Type 0) → All P os → All P (maximum_independent_set os)
  unfolding maximum_independent_set
  All-maximum_independent_set P h = All-sorted P before_by_id (values found) (
      augment_all-keeps (λ m. All P (values m)) P (values-put_match P) by_source
        (grouped_rows (λ s o. P o) (sorted before_in_policy os)
          (All-sorted P before_in_policy os h))
        (suc (length os)) (sorted leb (keys by_source)) [] tt)
