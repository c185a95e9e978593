-- ===== src/Matching/Order.antt =====
-- domain/matching.py: the sort key of `match_observation` is an order of the candidates.
use fireviewer_backend.Doubles.{Doubles, Settings, TextTools}
use fireviewer_backend.Matching.Decide.{
  before_by_episode, before_by_fire, before_by_ids, decide_ranked, match_observation, ranks_before,
}
use fireviewer_backend.Matching.Score.{
  Candidate, ObservationForMatch, ScoredCandidate, score_candidate,
}
use fireviewer_backend.Prelude.{
  All, AllPairs, Apart, Bool, InOrder, List, Permᴰ, String, [], ap, arith, eq_iff, false,
  if◌then◌else◌, map, map-Permᴰ, not, sorted, sorted-InOrder, sorted-Permᴰ, str_eq, text_leb,
  text_leb_antisym, text_leb_total, text_leb_trans, true, ◌==◌, ◌∷◌, ◌≡◌,
}

-- One level of a lexicographic order: a text first, then `next`.
module _ (key : Candidate → String) (next : Candidate → Candidate → Bool) where
  abbrev by_text : Candidate → Candidate → Bool
  by_text a b = if str_eq (key a) (key b) then next a b else text_leb (key a) (key b)

  by_text_trans :
      ((a b c : Candidate) → next a b ≡ true → next b c ≡ true → next a c ≡ true)
      → (a b c : Candidate) → by_text a b ≡ true
      → by_text b c ≡ true
      → by_text a c ≡ true
  by_text_trans h a b c p q = ground (
    arith,
    h a b c,
    eq_iff (key a) (key b),
    eq_iff (key b) (key c),
    eq_iff (key a) (key c),
    text_leb_trans (key a) (key b) (key c),
    text_leb_antisym (key a) (key b),
    p,
    q,
  )

  by_text_total :
      ((a b : Candidate) → next a b ≡ false → next b a ≡ true)
      → (a b : Candidate) → by_text a b ≡ false
      → by_text b a ≡ true
  by_text_total h a b p = ground (
    arith,
    h a b,
    eq_iff (key a) (key b),
    eq_iff (key b) (key a),
    text_leb_total (key a) (key b),
    p,
  )

  by_text_apart : (a b : Candidate) → next a b ≡ not (next b a) → by_text a b ≡ not (by_text b a)
  by_text_apart a b h = ground (
    arith,
    h,
    eq_iff (key a) (key b),
    eq_iff (key b) (key a),
    text_leb_total (key a) (key b),
    text_leb_antisym (key a) (key b),
  )

ranks_before_trans :
    (a b c : ScoredCandidate)
    → ranks_before a b ≡ true
    → ranks_before b c ≡ true
    → ranks_before a c ≡ true
unfolding ranks_before
ranks_before_trans a b c p q =
    ground (arith, p, q, by_fire_trans a.candidate b.candidate c.candidate)
  where
    by_ids_trans :
        (a b c : Candidate)
        → before_by_ids a b ≡ true
        → before_by_ids b c ≡ true
        → before_by_ids a c ≡ true
    by_ids_trans a b c p q = ground (arith, p, q)

    by_fire_trans :
        (a b c : Candidate)
        → before_by_fire a b ≡ true
        → before_by_fire b c ≡ true
        → before_by_fire a c ≡ true
    by_fire_trans =
        by_text_trans (λ c. c.fire_id) before_by_episode
          (by_text_trans (λ c. c.episode_id) before_by_ids by_ids_trans)

ranks_before_total : (a b : ScoredCandidate) → ranks_before a b ≡ false → ranks_before b a ≡ true
unfolding ranks_before
ranks_before_total a b p = ground (arith, p, by_fire_total a.candidate b.candidate)
  where
    by_ids_total : (a b : Candidate) → before_by_ids a b ≡ false → before_by_ids b a ≡ true
    by_ids_total a b p = ground (arith, p)

    by_fire_total : (a b : Candidate) → before_by_fire a b ≡ false → before_by_fire b a ≡ true
    by_fire_total =
        by_text_total (λ c. c.fire_id) before_by_episode
          (by_text_total (λ c. c.episode_id) before_by_ids by_ids_total)

ranks_before-Apart :
    (a b : ScoredCandidate)
    → (a.candidate.episode_db_id == b.candidate.episode_db_id) ≡ false
    → Apart ranks_before a b
unfolding ranks_before
ranks_before-Apart a b h = ground (arith, by_fire_apart a.candidate b.candidate h)
  where
    by_fire_apart :
        (a b : Candidate)
        → (a.episode_db_id == b.episode_db_id) ≡ false
        → before_by_fire a b ≡ not (before_by_fire b a)
    by_fire_apart a b h =
        by_text_apart (λ c. c.fire_id) before_by_episode a b
          (by_text_apart (λ c. c.episode_id) before_by_ids a b (ground (arith, h)))

-- The candidates are episodes of the database: no two have one key.
abbrev pub OtherEpisode : Candidate → Candidate → Type 0
OtherEpisode a b = (a.episode_db_id == b.episode_db_id) ≡ false

module _ (F : Doubles) (s : Settings) (T : TextTools) (o : ObservationForMatch) where
  abbrev scored : List Candidate → List ScoredCandidate
  scored = map (score_candidate F T s o)

  scored-Apart :
      (c : Candidate) (cs : List Candidate)
      → All (OtherEpisode c) cs
      → All (Apart ranks_before (score_candidate F T s o c)) (scored cs)
  unfolding score_candidate
  scored-Apart c [] h = tt
  scored-Apart c (d ∷ ds) h = (
    ranks_before-Apart (score_candidate F T s o c) (score_candidate F T s o d) h.0,
    scored-Apart c ds h.1,
  )

  scored_all-Apart :
      (cs : List Candidate) → AllPairs OtherEpisode cs → AllPairs (Apart ranks_before) (scored cs)
  scored_all-Apart [] h = tt
  scored_all-Apart (c ∷ cs) h = (scored-Apart c cs h.0, scored_all-Apart cs h.1)

  pub match_observation_shuffled :
      (overflow : Bool) {xs ys : List Candidate}
      → Permᴰ xs ys
      → AllPairs OtherEpisode xs
      → match_observation F s T o xs overflow ≡ match_observation F s T o ys overflow
  unfolding match_observation
  match_observation_shuffled overflow {xs} d h = ap (decide_ranked F s overflow) (
      sorted-Permᴰ ranks_before ranks_before_trans (map-Permᴰ (score_candidate F T s o) d)
        (scored_all-Apart xs h))

  pub scored-InOrder :
      (xs : List Candidate) → InOrder ranks_before (sorted ranks_before (scored xs))
  scored-InOrder xs = sorted-InOrder ranks_before ranks_before_trans ranks_before_total (scored xs)
