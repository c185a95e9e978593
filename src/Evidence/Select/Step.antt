-- ===== src/Evidence/Select/Step.antt =====
-- One call of `augment`: on success its source holds one hash more and no other source holds more or
-- less; on failure the matching is as it was. Hashes that were visited before keep their rows.
use fireviewer_backend.Evidence.Select.{
  BySource, Matched, Search, after_move, augment, claim, get_match, is_visited, put_match, rows_of,
  take_hash, try_rows, visit,
}
use fireviewer_backend.Incident.Rows.{Observation}
use fireviewer_backend.Prelude.{
  All, Bool, Bool-cases, List, Option, String, [], any, arith, eq_iff, eq_refl, false, inl, inr,
  none, refl, some, str_eq, subst, suc, sym, true, zero, ℕ, ◌&&◌, ◌+◌, ◌==◌, ◌∙◌, ◌∷◌, ◌≡◌,
}

abbrev pub is_source : ℕ → Observation → Bool
is_source s o = o.source_id == s

abbrev pub one_if : Bool → ℕ
one_if true = 1
one_if false = 0

-- The number of hashes that a source holds.
unfoldable pub held : ℕ → Matched → ℕ
held s [] = 0
held s ((k, o) ∷ rest) = one_if (is_source s o) + held s rest

-- Taking a free hash, or one that `c` held.
held-put_match_free :
    (s : ℕ) (h : String) (o : Observation) (m : Matched)
    → get_match h m ≡ none
    → held s (put_match h o m) ≡ held s m + one_if (is_source s o)
unfolding held get_match put_match
held-put_match_free s h o [] e = omega arith
held-put_match_free s h o ((k, c) ∷ rest) e = ground (arith, held-put_match_free s h o rest)

held-put_match-held :
    (s : ℕ) (h : String) (o c : Observation) (m : Matched)
    → get_match h m ≡ some c
    → held s (put_match h o m) + one_if (is_source s c) ≡ held s m + one_if (is_source s o)
unfolding held get_match put_match
held-put_match-held s h o c [] e = cc
held-put_match-held s h o c ((k, c') ∷ rest) e = ground (arith, held-put_match-held s h o c rest)

get_match-put_match_ne :
    (h j : String) (o : Observation) (m : Matched)
    → str_eq h j ≡ false
    → get_match j (put_match h o m) ≡ get_match j m
unfolding get_match put_match
get_match-put_match_ne h j o [] e = rw e
get_match-put_match_ne h j o ((k, c) ∷ rest) e =
    ground (arith, eq_iff k h, eq_iff k j, eq_iff h j, get_match-put_match_ne h j o rest)

-- What a call promises for the source `s`, whatever its result.
pub record Serves (s : ℕ) (before : Search) (after : Bool × Search) : Type 0 where
  pub grown :
      (h : String) → is_visited h before.visited ≡ true → is_visited h after.1.visited ≡ true
  pub kept :
      (h : String)
      → is_visited h before.visited ≡ true
      → get_match h after.1.matched ≡ get_match h before.matched
  pub counted :
      (x : ℕ) → held x after.1.matched ≡ held x before.matched + one_if (after.0 && s == x)

Serves-skip : (s : ℕ) (before : Search) → Serves s before (false, before)
Serves-skip s before = record { grown = λ h v. v; kept = λ h v. refl; counted = λ x. omega arith }

Serves-then :
    {s : ℕ} {before middle : Search} {after : Bool × Search}
    → Serves s before (false, middle)
    → Serves s middle after
    → Serves s before after
Serves-then a b = record {
  grown = λ h v. b.grown h (a.grown h v);
  kept = λ h v. b.kept h (a.grown h v) ∙ a.kept h v;
  counted = λ x. omega (arith, a.counted x, b.counted x);
}

-- Looking at a hash for the first time.
visit_grows :
    (h : String) (o : Observation) (s : Search)
    → is_visited h s.visited ≡ true
    → is_visited h (visit o s).visited ≡ true
unfolding is_visited any
visit_grows h o s v = ground arith

visit_self : (o : Observation) (s : Search) → is_visited o.evidence_hash (visit o s).visited ≡ true
unfolding is_visited any
visit_self o s = rw (eq_refl o.evidence_hash)

other_hash :
    (h : String) (o : Observation) (s : Search)
    → is_visited o.evidence_hash s.visited ≡ false
    → is_visited h s.visited ≡ true
    → str_eq o.evidence_hash h ≡ false
other_hash h o s new v = elim (Bool-cases (str_eq o.evidence_hash h)) [
  | inr e ↦ e
  | inl e ↦ cc (new, v, (eq_iff o.evidence_hash h).0 e)
]

module _ (recur : ℕ → Search → Bool × Search)
    (serves : (c : ℕ) (s : Search) → Serves c s (recur c s)) where
  -- A first look at the hash of `o`.
  module _ (o : Observation) (s : Search) (new : is_visited o.evidence_hash s.visited ≡ false) where
    -- The hash was free.
    Serves-free :
        get_match o.evidence_hash s.matched ≡ none
        → Serves o.source_id s (true, take_hash o (visit o s))
    Serves-free free = record {
      grown = λ h v. visit_grows h o s v;
      kept = λ h v. get_match-put_match_ne o.evidence_hash h o s.matched (other_hash h o s new v);
      counted = λ x. held-put_match_free x o.evidence_hash o s.matched free;
    }

    -- The hash was held by `c`, whose source found another.
    Serves-moved :
        (c : Observation) (s' : Search)
        → get_match o.evidence_hash s.matched ≡ some c
        → Serves c.source_id (visit o s) (true, s')
        → Serves o.source_id s (true, take_hash o s')
    Serves-moved c s' holder a = record {
      grown = λ h v. a.grown h (visit_grows h o s v);
      kept = λ h v.
          get_match-put_match_ne o.evidence_hash h o s'.matched (other_hash h o s new v)
          ∙ a.kept h (visit_grows h o s v);
      counted = λ x. omega (
        arith,
        a.counted x,
        held-put_match-held x o.evidence_hash o c s'.matched
            (a.kept o.evidence_hash (visit_self o s) ∙ holder),
      );
    }

    -- The hash was held by `c`, whose source found no other.
    Serves-stuck :
        (c : Observation) (s' : Search)
        → Serves c.source_id (visit o s) (false, s')
        → Serves o.source_id s (false, s')
    Serves-stuck c s' a = record {
      grown = λ h v. a.grown h (visit_grows h o s v);
      kept = λ h v. a.kept h (visit_grows h o s v);
      counted = λ x. a.counted x;
    }

    Serves-claim :
        (next : Search → Bool × Search) (held_by : Option Observation)
        → get_match o.evidence_hash s.matched ≡ held_by
        → ((s' : Search) → Serves o.source_id s' (next s'))
        → Serves o.source_id s (claim recur o next held_by (visit o s))
    Serves-claim next none e h = Serves-free e
    Serves-claim next (some c) e h =
        moved (recur c.source_id (visit o s)) (serves c.source_id (visit o s))
      where
        moved :
            (r : Bool × Search)
            → Serves c.source_id (visit o s) r
            → Serves o.source_id s (after_move o next r)
        moved (true, s') a = Serves-moved c s' e a
        moved (false, s') a = Serves-then (Serves-stuck c s' a) (h s')

  Serves-try_rows :
      (source : ℕ) (os : List Observation) (s : Search)
      → All (λ o. o.source_id ≡ source) os
      → Serves source s (try_rows recur os s)
  unfolding try_rows
  Serves-try_rows source [] s h = Serves-skip source s
  Serves-try_rows source (o ∷ os) s h = elim (Bool-cases (is_visited o.evidence_hash s.visited)) [
    | inl e ↦ rw e (Serves-try_rows source os s h.1)
    | inr e ↦ rw e (
        subst
          (λ c.
            Serves c s
              (claim recur o (try_rows recur os) (get_match o.evidence_hash s.matched) (visit o s)))
          h.0
          (Serves-claim o s e (try_rows recur os) (get_match o.evidence_hash s.matched) refl (λ s'.
            subst (λ c. Serves c s' (try_rows recur os s')) (sym h.0)
              (Serves-try_rows source os s' h.1))))
  ]

-- The rows of each source are its own.
abbrev pub IsGrouped : BySource → Type 0
IsGrouped by_source = (s : ℕ) → All (λ o. o.source_id ≡ s) (rows_of s by_source)

pub Serves-augment :
    (by_source : BySource)
    → IsGrouped by_source
    → (fuel source : ℕ) (s : Search) → Serves source s (augment by_source fuel source s)
unfolding augment
Serves-augment by_source g zero source s = Serves-skip source s
Serves-augment by_source g (suc fuel) source s =
    Serves-try_rows (augment by_source fuel) (Serves-augment by_source g fuel) source
      (rows_of source by_source) s (g source)
