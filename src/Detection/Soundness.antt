-- ===== src/Detection/Soundness.antt =====
-- services/detection.py: whatever comes of an observation, what is durable is sound.
-- A read of which every value leaves a durable store with the property.
use fireviewer_backend.Call.{validated}
use fireviewer_backend.Detection.Guard.{Kept, Ready, resolve_source-Kept}
use fireviewer_backend.Detection.Place.{Placement, place}
use fireviewer_backend.Detection.Placed.{place-IsPlaced}
use fireviewer_backend.Detection.Process.{
  after_source, detect_body, detection_hash, match_of, on_replay, process, process_detection,
}
use fireviewer_backend.Detection.Record.{announce, evaluate, record_observation, with_observation}
use fireviewer_backend.Detection.Request.{
  DetectionRequest, DetectionResponse, Intake, validate_times,
}
use fireviewer_backend.Doubles.{Doubles, Settings, TextTools}
use fireviewer_backend.Evidence.Recalculate.Assignments.{recalculate_identity}
use fireviewer_backend.Evidence.Recalculate.Soundness.{recalculate-canonical}
use fireviewer_backend.Incident.Rows.{Episode, IncidentSeries, Observation, Registry, Source}
use fireviewer_backend.Incident.Sound.{Sound}
use fireviewer_backend.Incident.Sound.Ready.{FreshKeys, ReadyWith, TargetIn}
use fireviewer_backend.Incident.Sound.Targets.{written-Sound}
use fireviewer_backend.Ledger.{Replay, find_replay}
use fireviewer_backend.Matching.Candidates.{SpatialIndex}
use fireviewer_backend.Matching.Decide.{MatchResult}
use fireviewer_backend.Platform.{Platform, Value}
use fireviewer_backend.Prelude.{List, Option, String, none, refl, some, subst, ℕ, ◌≡◌}
use fireviewer_backend.Session.{
  Outcome, Result, Tx, durable_of, err, lift, ok, ok_value, raised, request, returned, then_read-ok,
  ◌>>=◌,
}

lift_kept :
    {S A B : Type 0} (Q : S → Type 0) (r : Result A) (f : A → Tx S B) (d w : S)
    → Q d
    → ((a : A) → r ≡ ok a → Q (durable_of (f a d w)))
    → Q (durable_of ((lift r >>= f) d w))
lift_kept Q (ok a) f d w q h = h a refl
lift_kept Q (err e) f d w q h = q

-- The observations do not matter to a target.
kept_target :
    (target : Option (IncidentSeries × Episode)) (s : Registry) (rows : List Observation)
    → TargetIn target s
    → TargetIn target (record s { observations = rows })
kept_target none s rows t = t
kept_target (some (i, e)) s rows t = t

module _ (P : Platform) (F : Doubles) (T : TextTools) (X : SpatialIndex) (settings : Settings)
    (p : DetectionRequest) (n : Intake) where
  evaluate-Sound :
      (hash : String) (source : Source) (m : MatchResult)
      (attached : Option (IncidentSeries × Episode)) (s : Registry)
      → ReadyWith attached s
      → Sound (evaluate P settings p n hash source m attached s).registry
  unfolding evaluate announce
  evaluate-Sound hash source m none s (sound, t) = sound
  evaluate-Sound hash source m (some (incident, episode)) s (sound, t) =
      let threshold = settings.corroboration_min_independent_proofs in
      let (same_i, same_e) =
        recalculate_identity threshold n.now none s.sources incident episode s.observations in
      let (visible, _, _) =
        recalculate-canonical threshold n.now none s.sources incident episode s.observations in
      written-Sound s.incidents s.episodes s.counters incident _ episode _ t same_i same_e visible
        sound

  record_observation-Sound :
      (hash : String) (source : Source) (m : MatchResult) (placed : Placement)
      → ReadyWith placed.attached placed.registry
      → Sound (record_observation P settings p n hash source m placed).1
  unfolding record_observation
  record_observation-Sound hash source m placed ready =
      evaluate-Sound hash source m placed.attached
        (with_observation P settings p n hash source m placed)
        (ready.0, kept_target placed.attached placed.registry _ ready.1)

  process-Sound :
      (source : Source) (s : Registry) {r : (DetectionResponse × Registry) × ℕ}
      → Ready n.keys s
      → process P F T X settings p n source s ≡ ok r
      → Sound r.0.1
  unfolding process
  process-Sound source s (fresh, sound) h =
      let m = match_of P F T X settings p n source s in
      let (times, _, h₁) = then_read-ok (validate_times settings n.checked_at p) _ h in
      let (placed, there, h₂) = then_read-ok (place P F settings p n m.decision m.best s) _ h₁ in
      let ready = place-IsPlaced P F settings p n s fresh sound m.decision m.best there in
      subst (λ (r : (DetectionResponse × Registry) × ℕ). Sound r.0.1) (ok_value h₂)
        (record_observation-Sound (detection_hash P F T X settings p n) source m placed ready)

  detect_body-Sound :
      (source : Source) (d w : Registry)
      → Ready n.keys d
      → Ready n.keys w
      → Sound (durable_of (detect_body P F T X settings p n source d w))
  unfolding detect_body
  detect_body-Sound source d w kept ready =
      lift_kept Sound (process P F T X settings p n source w) _ d w kept.1
        (λ r same. process-Sound source w ready same)

  module _ (validate : Value → Option DetectionResponse) where
    on_replay-Sound :
        (source : Source) (found : Option Replay) (d w : Registry)
        → Ready n.keys d
        → Ready n.keys w
        → Sound (durable_of (on_replay P F T X settings p n validate source found d w))
    on_replay-Sound source none d w kept ready = detect_body-Sound source d w kept ready
    on_replay-Sound source (some r) d w kept ready =
        lift_kept Sound (validated (validate r.response_body)) _ d d kept.1 (λ _ _. kept.1)

    after_source-Sound :
        (source : Source) (d w : Registry)
        → Ready n.keys d
        → Ready n.keys w
        → Sound (durable_of (after_source P F T X settings p n validate source d w))
    unfolding after_source
    after_source-Sound source d w kept ready =
        lift_kept Sound (find_replay _ _ _ n.replay_at w.ledger) _ d w kept.1
          (λ found _. on_replay-Sound source found.0 d (record w { ledger = found.1 }) kept ready)

    resolved-Sound :
        (o : Outcome Registry Source)
        → Kept (Ready n.keys) o
        → Sound (
            durable_of (elim o [
              | returned a d w ↦ after_source P F T X settings p n validate a d w
              | raised e d ↦ raised e d
            ]))
    resolved-Sound (returned a d w) kept = after_source-Sound a d w kept.0 kept.1
    resolved-Sound (raised e d) kept = kept.1

    -- However the intake of an observation ends, accepted, replayed, refused or failed, the tables
    -- that it leaves durable are sound, if they were and the keys that the database gives are new.
    pub process_detection-Sound :
        (db : Registry)
        → FreshKeys n.keys db
        → Sound db
        → Sound (durable_of (request (process_detection P F T X settings p n validate) db))
    unfolding process_detection
    process_detection-Sound db fresh sound =
        resolved-Sound _ (resolve_source-Kept P p n db (fresh, sound))
