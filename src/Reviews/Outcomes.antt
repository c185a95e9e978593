-- ===== src/Reviews/Outcomes.antt =====
-- services/reviews.py: a failed review changes nothing, and a repeated one is replayed.
use fireviewer_backend.Call.{Call}
use fireviewer_backend.Call.Unchanged.{idempotent-raised}
use fireviewer_backend.Doubles.{Doubles, Settings}
use fireviewer_backend.Errors.{Failure}
use fireviewer_backend.Incident.Create.{Keys}
use fireviewer_backend.Incident.Lifecycle.{registry_ledger}
use fireviewer_backend.Incident.Rows.{Registry}
use fireviewer_backend.Platform.{Platform, Value}
use fireviewer_backend.Prelude.{Option, String, arith, ◌≡◌}
use fireviewer_backend.Reviews.Request.{
  ReviewResolutionRequest, ReviewResolutionResponse, review_endpoint,
}
use fireviewer_backend.Reviews.Resolve.{
  resolve, resolve_body, resolve_review, review_hash, review_model,
}
use fireviewer_backend.Session.{Result, err, lift, ok, pure, put, raised, request, ◌>>=◌, ◌>>◌}

module _ (P : Platform) (F : Doubles) (settings : Settings) (keys : Keys) (observation_id : String)
    (p : ReviewResolutionRequest) (call : Call) where
  lifted-CommitsNothing :
      (x : Result (ReviewResolutionResponse × Registry)) (d w d' : Registry) (e : Failure)
      → (lift x >>= (λ answer. put answer.1 >> pure answer.0)) d w ≡ raised e d'
      → d' ≡ d
  lifted-CommitsNothing (ok a) d w d' e h = cc
  lifted-CommitsNothing (err x) d w d' e h = ground arith

  module _ (validate : Value → Option ReviewResolutionResponse) where
    -- A review that raises leaves the store exactly as it was.
    pub resolve_review-raised :
        (db d : Registry) (e : Failure)
        → request (resolve_review P F settings keys observation_id p call validate) db ≡ raised e d
        → d ≡ db
    unfolding resolve_review resolve_body
    resolve_review-raised db d e h =
        idempotent-raised registry_ledger
          (review_model P F settings keys observation_id p call validate)
          (review_endpoint observation_id) (review_hash P F settings keys observation_id p call)
          call 200 (resolve_body P F settings keys observation_id p call) db d e
          (λ durable working x d'.
            lifted-CommitsNothing (resolve P F settings keys observation_id p call working) durable
              working d' x)
          h
