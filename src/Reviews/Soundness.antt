-- ===== src/Reviews/Soundness.antt =====
-- services/reviews.py: a review keeps the tables of the registry sound.
use fireviewer_backend.Call.{Call}
use fireviewer_backend.Call.Retry.{from_body_lem, idempotent-fresh}
use fireviewer_backend.Doubles.{Doubles, Settings}
use fireviewer_backend.Enums.Sources.{ReviewResolutionAction}
use fireviewer_backend.Evidence.Recalculate.{is_id}
use fireviewer_backend.Evidence.Recalculate.Assignments.{recalculate_identity}
use fireviewer_backend.Evidence.Recalculate.Soundness.{recalculate-canonical}
use fireviewer_backend.Incident.Create.{Keys}
use fireviewer_backend.Incident.FireId.{is_fire_id}
use fireviewer_backend.Incident.Lifecycle.{
  has_episode_key, has_fire_id, has_incident_key, is_current_of, registry_ledger,
}
use fireviewer_backend.Incident.Rows.{Episode, IncidentSeries, Observation, Registry}
use fireviewer_backend.Incident.Sound.{Sound}
use fireviewer_backend.Incident.Sound.Ready.{FreshKeys, TargetIn}
use fireviewer_backend.Incident.Sound.Targets.{found_here, lookup-IsTarget, written-Sound}
use fireviewer_backend.Incident.Sound.Written.{one_All, scalar_one_row}
use fireviewer_backend.Platform.{Platform, Value}
use fireviewer_backend.Prelude.{
  All, All-select, Bool-cases, Option, String, ap, arith, false, inl, inr, none, refl, select, some,
  subst, true, ℕ, ◌==◌, ◌∙◌, ◌≡◌,
}
use fireviewer_backend.Reviews.Actions.{
  Decided, attach_to_fire, attached_rows, decide_action, reject_observation,
}
use fireviewer_backend.Reviews.Branches.{IsReady, attach-IsReady, create-IsReady}
use fireviewer_backend.Reviews.Request.{
  ReviewResolutionRequest, ReviewResolutionResponse, has_observation_id, is_resolved,
  review_endpoint,
}
use fireviewer_backend.Reviews.Resolve.{
  conclude, decided_row, finish, human_validated_at, put_observation, resolve, resolve_body,
  resolve_review, review_hash, review_model, review_observation, written,
}
use fireviewer_backend.Session.{
  ok, ok_value, one_or_none, or_not_found, or_not_found-ok, read-returned, request, returned,
  scalar_one, scalar_one_or_none, scalar_one_unique, then_read-ok,
}

-- The episode that the observation is attached to is the current one of its incident.
abbrev pub AttachedToCurrent : Registry → Observation → Type 0
AttachedToCurrent s o =
    All
      (λ (e : Episode).
        is_id e.id o.attached_episode_id ≡ true
        → (e.is_current ≡ true) × (is_id e.incident_id o.attached_incident_id ≡ true))
      s.episodes

attached-TargetIn :
    (ik ek : Option ℕ) (s : Registry) {target : Option (IncidentSeries × Episode)}
    → Sound s
    → All
        (λ (e : Episode).
          is_id e.id ek ≡ true → (e.is_current ≡ true) × (is_id e.incident_id ik ≡ true))
        s.episodes
    → attached_rows ik ek s ≡ ok target
    → TargetIn target s
unfolding attached_rows
attached-TargetIn none ek s sound attached h = subst (λ t. TargetIn t s) (ok_value h) tt
attached-TargetIn (some i) none s sound attached h = subst (λ t. TargetIn t s) (ok_value h) tt
attached-TargetIn (some i) (some k) s sound attached h =
    let (incident, found, h₁) =
      then_read-ok (scalar_one (select (has_incident_key i) s.incidents)) _ h in
    let (episode, there, h₂) =
      then_read-ok (scalar_one (select (has_episode_key k) s.episodes)) _ h₁ in
    let (_, keyed) = scalar_one_unique (has_incident_key i) s.incidents found in
    let (_, ekeyed) = scalar_one_unique (has_episode_key k) s.episodes there in
    let Q = λ (e : Episode).
      is_id e.id (some k) ≡ true → (e.is_current ≡ true) × (is_id e.incident_id (some i) ≡ true) in
    let (now, linked) =
      one_All (λ (e : Episode). e.id) (has_episode_key k) Q (select (has_episode_key k) s.episodes)
        (All-select Q (has_episode_key k) s.episodes attached) there (ground (arith, ekeyed)) in
    subst (λ t. TargetIn t s) (ok_value h₂)
      (record {
        incident_row =
            scalar_one_row (λ (x : IncidentSeries). x.id) (has_incident_key i) s.incidents
              sound.incident_keys found;
        episode_row =
            scalar_one_row (λ (x : Episode). x.id) (has_episode_key k) s.episodes sound.episode_keys
              there;
        episode_here = found_here (λ (x : Episode). x.id) (has_episode_key k) s.episodes there;
        owner = ground (arith, linked, keyed);
        current = now;
      })

reject-IsReady :
    (o : Observation) (s : Registry) {d : Decided}
    → AttachedToCurrent s o
    → Sound s
    → reject_observation o s ≡ ok d
    → IsReady d
unfolding reject_observation
reject-IsReady o s attached sound h =
    let (target, found, same) =
      then_read-ok (attached_rows o.attached_incident_id o.attached_episode_id s) _ h in
    subst IsReady (ok_value same)
      (sound, attached-TargetIn o.attached_incident_id o.attached_episode_id s sound attached found)

module _ (F : Doubles) (settings : Settings) (keys : Keys) (p : ReviewResolutionRequest)
    (o : Observation) (s : Registry) (fresh : FreshKeys keys s) (sound : Sound s) where
  attach_to_fire-IsReady :
      (fire_id : Option String) {d : Decided}
      → attach_to_fire F settings keys p fire_id o s ≡ ok d
      → IsReady d
  unfolding attach_to_fire
  attach_to_fire-IsReady none h = cc
  attach_to_fire-IsReady (some fire_id) h = elim (Bool-cases (is_fire_id fire_id)) [
    | inl e ↦
        let (found, looked, h₁) =
          then_read-ok (scalar_one_or_none (select (has_fire_id fire_id) s.incidents)) _
            (rw e at h) in
        let (incident, there, h₂) = then_read-ok (or_not_found "incident" fire_id found) _ h₁ in
        let (current, now, h₃) =
          then_read-ok (scalar_one (select (is_current_of incident.id) s.episodes)) _ h₂ in
        let one = looked ∙ ap ok (or_not_found-ok "incident" fire_id found there) in
        attach-IsReady F settings keys p o s fresh sound current.status incident current
          (lookup-IsTarget s.incidents s.episodes s.counters fire_id one now sound) h₃
    | inr e ↦ cc (rw e at h)
  ]

  decide_action-IsReady :
      (action : ReviewResolutionAction) {d : Decided}
      → (action ≡ ReviewResolutionAction.reject → AttachedToCurrent s o)
      → decide_action F settings keys p action o s ≡ ok d
      → IsReady d
  unfolding decide_action
  decide_action-IsReady ReviewResolutionAction.reject attached h =
      reject-IsReady o s (attached refl) sound h
  decide_action-IsReady ReviewResolutionAction.create attached h =
      subst IsReady (ok_value h) (create-IsReady F settings keys p o s fresh sound)
  decide_action-IsReady ReviewResolutionAction.attach attached h =
      attach_to_fire-IsReady p.target_fire_id h

module _ (P : Platform) (F : Doubles) (settings : Settings) (keys : Keys) (observation_id : String)
    (p : ReviewResolutionRequest) (call : Call) where
  finish-Sound :
      (before : Observation) (d : Decided) (target : Option (IncidentSeries × Episode))
      → Sound d.registry
      → TargetIn target d.registry
      → Sound (finish P F settings keys observation_id p call before d target).1
  unfolding finish conclude
  finish-Sound before d none sound t = sound
  finish-Sound before d (some (incident, episode)) sound t =
      let threshold = settings.corroboration_min_independent_proofs in
      let human = human_validated_at P F settings keys observation_id p call p.action in
      let rows =
        put_observation P F settings keys observation_id p call
          (decided_row P F settings keys observation_id p call d) d.registry.observations in
      let (same_i, same_e) =
        recalculate_identity threshold call.now human d.registry.sources incident episode rows in
      let (visible, _, _) =
        recalculate-canonical threshold call.now human d.registry.sources incident episode rows in
      written-Sound d.registry.incidents d.registry.episodes d.registry.counters incident _ episode
        _ t same_i same_e visible sound

  -- The observations of that identifier are attached to a current episode, if the review rejects.
  abbrev pub RejectsCurrent : Registry → Type 0
  RejectsCurrent s =
      p.action ≡ ReviewResolutionAction.reject
      → All (λ o. has_observation_id observation_id o ≡ true → AttachedToCurrent s o) s.observations

  resolve-Sound :
      (s s' : Registry) (r : ReviewResolutionResponse)
      → FreshKeys keys s
      → RejectsCurrent s
      → Sound s
      → resolve P F settings keys observation_id p call s ≡ ok (r, s')
      → Sound s'
  unfolding resolve review_observation
  resolve-Sound s s' r fresh attached sound h =
      let (found, looked, h₁) =
        then_read-ok
          (scalar_one_or_none (select (has_observation_id observation_id) s.observations)) _ h in
      let (o, there, h₂) = then_read-ok (or_not_found "observation" observation_id found) _ h₁ in
      let rows = select (has_observation_id observation_id) s.observations in
      let one : scalar_one rows ≡ ok o =
        one_or_none rows
          (looked ∙ ap ok (or_not_found-ok "observation" observation_id found there)) in
      let (_, mine) = scalar_one_unique (has_observation_id observation_id) s.observations one in
      elim (Bool-cases (o.version == p.expected_version)) [
        | inl same ↦ elim (Bool-cases (is_resolved o.verification_state)) [
          | inl done ↦ cc (rw (same, done) at h₂)
          | inr pending ↦
              let (d, decided, finished) =
                then_read-ok (decide_action F settings keys p p.action o s) _
                  (rw (same, pending) at h₂) in
              let (ready, target) =
                decide_action-IsReady F settings keys p o s fresh sound p.action
                  (λ rejects.
                    let Q = λ (x : Observation).
                      has_observation_id observation_id x ≡ true → AttachedToCurrent s x in
                    one_All (λ (x : Observation). x.id) (has_observation_id observation_id) Q rows
                      (All-select Q (has_observation_id observation_id) s.observations
                        (attached rejects))
                      one mine)
                  decided in
              subst Sound
                (ap (λ (q : ReviewResolutionResponse × Registry). q.1) (ok_value finished))
                (finish-Sound o d d.target ready target)
        ]
        | inr other ↦ cc (rw other at h₂)
      ]

  -- A review that is answered afresh keeps the tables of the registry sound.
  pub resolve_review-Sound :
      (validate : Value → Option ReviewResolutionResponse) (db d w : Registry)
      (r : ReviewResolutionResponse)
      → FreshKeys keys db
      → RejectsCurrent db
      → Sound db
      → request (resolve_review P F settings keys observation_id p call validate) db
        ≡ returned (record { response = r; replayed = false }) d w
      → Sound d
  unfolding resolve_review resolve_body
  resolve_review-Sound validate db d w r fresh attached sound h =
      let M = review_model P F settings keys observation_id p call validate in
      let E = review_endpoint observation_id in
      let H = review_hash P F settings keys observation_id p call in
      let body = resolve_body P F settings keys observation_id p call in
      let (l, _, ran) = idempotent-fresh registry_ledger M E H call 200 body db d w r h in
      let (d₀, w₀, done, _, stored) =
        from_body_lem registry_ledger M E H call 200 body db (record db { ledger = l }) d w r ran in
      let (answer, resolved, written) = read-returned _ _ db (record db { ledger = l }) done in
      let same : answer.1 ≡ w₀ = ground (arith, written) in
      let after : Sound answer.1 =
        resolve-Sound (record db { ledger = l }) answer.1 answer.0 fresh attached sound resolved in
      rw stored (subst Sound same after)
