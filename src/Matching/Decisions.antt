-- ===== src/Matching/Decisions.antt =====
-- domain/matching.py: which decision `match_observation` takes, and which candidates it compares.
use fireviewer_backend.Dispatch.Rows.{second}
use fireviewer_backend.Doubles.{Doubles, Settings, TextTools}
use fireviewer_backend.Enums.Sources.{MatchDecision}
use fireviewer_backend.Matching.Decide.{
  decide, decide_ranked, first_of, is_detached, margin_of, match_observation, ranks_before,
  reasons_of, second_of,
}
use fireviewer_backend.Matching.Order.{scored-InOrder}
use fireviewer_backend.Matching.Score.{
  Candidate, ObservationForMatch, ScoredCandidate, score_candidate,
}
use fireviewer_backend.Prelude.{
  All, All-imp, All-map, All-map_of, All-sorted, All-sorted_inv, Bool, InOrder, List, Option, Permᴰ,
  Permᴰ-sorted, [], arith, false, map, none, some, sorted, true, ℕ, ◌<◌, ◌↔◌, ◌∷◌, ◌≡◌, ◌≤◌,
}

module _ (F : Doubles) (s : Settings) (T : TextTools) (o : ObservationForMatch) where
  abbrev score_of : Candidate → ℕ
  score_of c = (score_candidate F T s o c).score

  -- `b` and `c` are the first two of the scored candidates in some order in which no score is above the
  -- one of `b` and none of the others is above the one of `c`.
  abbrev pub AreTop :
      Option ScoredCandidate → Option ScoredCandidate → List ScoredCandidate → Type 0
  AreTop none none l = Permᴰ l []
  AreTop none (some c) l = ⊥
  AreTop (some b) none l = Permᴰ l (b ∷ [])
  AreTop (some b) (some c) l =
      (rest : List ScoredCandidate) × Permᴰ l (b ∷ c ∷ rest)
      × (c.score ≤ b.score)
      × All (λ x. x.score ≤ c.score) rest

  top_score :
      (b : ScoredCandidate) (xs : List ScoredCandidate)
      → All (λ x. ranks_before b x ≡ true) xs
      → All (λ x. x.score ≤ b.score) xs
  unfolding ranks_before
  top_score b [] h = tt
  top_score b (x ∷ xs) h = (ground (arith, h.0), top_score b xs h.1)

  -- The first two of a ranked list that has the candidates in another order.
  ranked-AreTop :
      (l xs : List ScoredCandidate)
      → Permᴰ l xs
      → InOrder ranks_before xs
      → AreTop (first_of xs) (second_of xs) l
  ranked-AreTop l [] d h = d
  ranked-AreTop l (b ∷ []) d h = d
  ranked-AreTop l (b ∷ c ∷ xs) d h = (xs, d, (top_score b (c ∷ xs) h.0).0, top_score c xs h.1.0)

  ranked_candidates :
      (overflow : Bool) (l : List ScoredCandidate)
      → ((decide_ranked F s overflow l).best ≡ first_of l)
        × ((decide_ranked F s overflow l).second ≡ second_of l)
        × ((decide_ranked F s overflow l).margin ≡ margin_of F s (first_of l) (second_of l))
  unfolding decide
  ranked_candidates overflow l = ground arith

  -- Creation, from the ranked list.
  ranked_create :
      (overflow : Bool) (l : List ScoredCandidate)
      → InOrder ranks_before l
      → ((decide_ranked F s overflow l).decision ≡ MatchDecision.create)
        ↔ ((overflow ≡ false) × All (λ x. x.score < s.matching_create_below) l)
  unfolding decide reasons_of
  ranked_create overflow [] h = ground arith
  ranked_create overflow (b ∷ xs) h = (
    λ e.
        let low : (overflow ≡ false) × (b.score < s.matching_create_below) = ground arith in
        (low.0, (low.1, All-imp xs (λ x le. omega arith) (top_score b xs h.0))),
    λ (off, low). ground (arith, off, low.0),
  )

  -- The best candidate stands out: it can be attached to, its score reaches both thresholds, and if
  -- there is a second candidate, the rounded difference of the scores reaches the least margin.
  abbrev pub IsClear : ScoredCandidate → Option ScoredCandidate → Type 0
  IsClear b none = Unit {0}
  IsClear b (some c) = s.matching_min_margin ≤ F.rounded 6 (F.subtract b.score c.score)

  abbrev pub StandsOut : ScoredCandidate → Option ScoredCandidate → Type 0
  StandsOut b second =
      (is_detached b.candidate.status ≡ false)
      × (s.matching_create_below ≤ b.score)
      × (s.matching_auto_attach_above ≤ b.score)
      × IsClear b second

  ranked_attach :
      (overflow : Bool) (best next : Option ScoredCandidate)
      → ((decide F s overflow best next (margin_of F s best next)).decision ≡ MatchDecision.attach)
        ↔ ((overflow ≡ false) × ((b : ScoredCandidate) × (best ≡ some b) × StandsOut b next))
  unfolding decide reasons_of
  ranked_attach true best next = ground arith
  ranked_attach false none next = ground arith
  ranked_attach false (some b) none = ground arith
  ranked_attach false (some b) (some c) = ground arith

  ranking :
      (xs : List Candidate)
      → InOrder ranks_before (sorted ranks_before (map (score_candidate F T s o) xs))
  ranking = scored-InOrder F s T o

  -- The best and the second of the result are the first two of the scored candidates: candidates of
  -- their own, the second with a score not above the best and every other with one not above the second.
  pub match_observation-best :
      (overflow : Bool) (xs : List Candidate)
      → let r = match_observation F s T o xs overflow in
        AreTop r.best r.second (map (score_candidate F T s o) xs)
  unfolding match_observation
  match_observation-best overflow xs =
      let l = sorted ranks_before (map (score_candidate F T s o) xs) in
      let (best, next, _) = ranked_candidates overflow l in
      rw (best, next)
        (ranked-AreTop (map (score_candidate F T s o) xs) l
          (Permᴰ-sorted ranks_before (map (score_candidate F T s o) xs)) (ranking xs))

  -- A match creates an incident exactly if the candidates did not overflow and every one of them scores
  -- below `matching_create_below`.
  pub match_observation-create :
      (overflow : Bool) (xs : List Candidate)
      → ((match_observation F s T o xs overflow).decision ≡ MatchDecision.create)
        ↔ ((overflow ≡ false) × All (λ c. score_of c < s.matching_create_below) xs)
  unfolding match_observation
  match_observation-create overflow xs =
      let f = score_candidate F T s o in
      let (there, back) = ranked_create overflow (sorted ranks_before (map f xs)) (ranking xs) in
      let P = λ (x : ScoredCandidate). x.score < s.matching_create_below in
      (
        λ e.
            let (off, low) = there e in
            (off, All-map P f xs (All-sorted_inv P ranks_before (map f xs) low)),
        λ (off, low). back (off, All-sorted P ranks_before (map f xs) (All-map_of P f xs low)),
      )

  -- A match attaches exactly if the candidates did not overflow and the best one is neither suspended
  -- nor rejected, its score reaches both thresholds, and the second one, if there is one, is behind by
  -- the least margin.
  pub match_observation-attach :
      (overflow : Bool) (xs : List Candidate)
      → let r = match_observation F s T o xs overflow in
        (r.decision ≡ MatchDecision.attach)
        ↔ ((overflow ≡ false) × ((b : ScoredCandidate) × (r.best ≡ some b) × StandsOut b r.second))
  unfolding match_observation
  match_observation-attach overflow xs =
      let l = sorted ranks_before (map (score_candidate F T s o) xs) in
      let (best, next, _) = ranked_candidates overflow l in
      rw (best, next) (ranked_attach overflow (first_of l) (second_of l))
