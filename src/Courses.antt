-- ===== src/Courses.antt =====
-- Requests to the registry one after another: transitions (services/transitions.py), reviews
-- (services/reviews.py) and the intake of observations (services/detection.py), whatever their
-- outcomes. `begin_write_transaction` serialises the writers.
pub mod Soundness
use fireviewer_backend.Call.{Call}
use fireviewer_backend.Detection.Process.{process_detection}
use fireviewer_backend.Detection.Request.{DetectionRequest, DetectionResponse, Intake}
use fireviewer_backend.Doubles.{Doubles, Settings, TextTools}
use fireviewer_backend.Incident.Create.{Keys}
use fireviewer_backend.Incident.Lifecycle.{TransitionRequest, TransitionResponse}
use fireviewer_backend.Incident.Rows.{Registry}
use fireviewer_backend.Incident.Sound.Ready.{FreshKeys}
use fireviewer_backend.Incident.Transition.{transition_incident}
use fireviewer_backend.Matching.Candidates.{SpatialIndex}
use fireviewer_backend.Platform.{Platform, Value}
use fireviewer_backend.Prelude.{Option, String, ◌≡◌}
use fireviewer_backend.Reviews.Request.{ReviewResolutionRequest, ReviewResolutionResponse}
use fireviewer_backend.Reviews.Resolve.{resolve_review}
use fireviewer_backend.Reviews.Soundness.{RejectsCurrent}
use fireviewer_backend.Session.{durable_of, request}

module _ (P : Platform) (F : Doubles) (T : TextTools) (X : SpatialIndex) (settings : Settings)
    (read_transition : Value → Option TransitionResponse)
    (read_review : Value → Option ReviewResolutionResponse)
    (read_detection : Value → Option DetectionResponse) where
  -- One request and the durable store that it leaves.
  pub data Request : Registry → Registry → Type 0 where
    transition_request :
        (fire_id : String) (p : TransitionRequest) (call : Call) {db db' : Registry}
        → db' ≡ durable_of (request (transition_incident P fire_id p call read_transition) db)
        → Request db db'
    review_request :
        (keys : Keys) (observation_id : String) (p : ReviewResolutionRequest) (call : Call)
        {db db' : Registry}
        → FreshKeys keys db
        → RejectsCurrent P F settings keys observation_id p call db
        → db'
          ≡ durable_of
              (request (resolve_review P F settings keys observation_id p call read_review) db)
        → Request db db'
    detection_request :
        (p : DetectionRequest) (n : Intake) {db db' : Registry}
        → FreshKeys n.keys db
        → db' ≡ durable_of (request (process_detection P F T X settings p n read_detection) db)
        → Request db db'

  pub data History : Registry → Registry → Type 0 where
    nothing_more : {db db' : Registry} → db' ≡ db → History db db'
    after_request : {db db' db'' : Registry} → Request db db' → History db' db'' → History db db''
