-- ===== src/Incident/Transition/Coherence.antt =====
-- The registry invariant: the stored visibility of an incident is the canonical one of its current
-- episode, so that the readers, who fail closed on any other pair, can show it.
use fireviewer_backend.Call.{Call}
use fireviewer_backend.Enums.{IncidentStatus, tombstoned}
use fireviewer_backend.Incident.Lifecycle.{
  TransitionRequest, TransitionResponse, is_current_of, moved_episode, moved_incident, put_episode,
  put_incident,
}
use fireviewer_backend.Incident.Rows.{Episode, IncidentSeries, Registry}
use fireviewer_backend.Incident.Transition.{transition_incident}
use fireviewer_backend.Incident.Transition.Accepted.{transition_incident-Accepted}
use fireviewer_backend.Incident.Visibility.{canonical_public_visibility}
use fireviewer_backend.Platform.{Platform, Value}
use fireviewer_backend.Prelude.{
  All, All-update_to, Bool-cases, List, Option, String, arith, false, if◌then◌else◌, inl, inr, true,
  ℕ, ◌==◌, ◌∙◌, ◌≡◌, ◌⊎◌,
}
use fireviewer_backend.Session.{request, returned, scalar_one_unique}

-- `TOMBSTONED` stands outside the policy.
abbrev pub IsCanonical : IncidentSeries → Episode → Type 0
IsCanonical i e =
    is_current_of i.id e ≡ true
    → (i.public_visibility ≡ tombstoned)
      ⊎ (i.public_visibility ≡ canonical_public_visibility e.status e.verification_state)

abbrev pub IsCoherent : List IncidentSeries → List Episode → Type 0
IsCoherent incidents episodes = All (λ i. All (IsCanonical i) episodes) incidents

-- A move keeps the identity of the episode.
moved_identity :
    (t : IncidentStatus) (now : ℕ) (e : Episode)
    → ((moved_episode t now e).id ≡ e.id)
      × ((moved_episode t now e).incident_id ≡ e.incident_id)
      × ((moved_episode t now e).status ≡ t)
unfolding moved_episode
moved_identity t now e = ground arith

-- Writing the one current episode of an incident and the incident's canonical visibility keeps
-- every pair canonical.
module _ (i' : IncidentSeries) (e e' : Episode) (same_id : e'.id ≡ e.id)
    (owner : e'.incident_id ≡ i'.id) where
  new_pair :
      i'.public_visibility ≡ canonical_public_visibility e'.status e'.verification_state
      → (x : Episode) → (is_current_of i'.id x ≡ true → x ≡ e)
      → IsCanonical i' (if x.id == e'.id then e' else x)
  new_pair v x only = elim (Bool-cases (x.id == e'.id)) [
    | inl h ↦ rw h (λ _. inr v)
    | inr h ↦ rw h (λ c. absurd (ground (arith, only c)))
  ]

  old_pair :
      (i : IncidentSeries)
      → (i.id == i'.id) ≡ false
      → (x : Episode) → IsCanonical i x
      → IsCanonical i (if x.id == e'.id then e' else x)
  old_pair i other x c = elim (Bool-cases (x.id == e'.id)) [
    | inl h ↦ rw h (λ current. absurd (ground arith))
    | inr h ↦ rw h c
  ]

  pub put-IsCoherent :
      (incidents : List IncidentSeries) (episodes : List Episode)
      → i'.public_visibility ≡ canonical_public_visibility e'.status e'.verification_state
      → All (λ x. is_current_of i'.id x ≡ true → x ≡ e) episodes
      → IsCoherent incidents episodes
      → IsCoherent (put_incident i' incidents) (put_episode e' episodes)
  put-IsCoherent incidents episodes v only c =
      All-update_to (λ i. All (IsCanonical i) episodes)
        (λ i. All (IsCanonical i) (put_episode e' episodes)) (λ row. row.id == i'.id) (λ _. i')
        incidents row c
    where
      row :
          (i : IncidentSeries)
          → All (IsCanonical i) episodes
          → All (IsCanonical (if i.id == i'.id then i' else i)) (put_episode e' episodes)
      row i h = elim (Bool-cases (i.id == i'.id)) [
        | inl same ↦ rw same (
            All-update_to (λ x. is_current_of i'.id x ≡ true → x ≡ e) (IsCanonical i')
              (λ x. x.id == e'.id) (λ _. e') episodes (new_pair v) only)
        | inr other ↦ rw other (
            All-update_to (IsCanonical i) (IsCanonical i) (λ x. x.id == e'.id) (λ _. e') episodes
              (old_pair i other) h)
      ]

-- A transition that is answered afresh keeps the registry coherent.
pub transition_incident-IsCoherent :
    (P : Platform) (fire_id : String) (p : TransitionRequest) (call : Call)
    (validate : Value → Option TransitionResponse) (db d w : Registry) (r : TransitionResponse)
    → IsCoherent db.incidents db.episodes
    → request (transition_incident P fire_id p call validate) db
      ≡ returned (record { response = r; replayed = false }) d w
    → IsCoherent d.incidents d.episodes
unfolding moved_incident
transition_incident-IsCoherent P fire_id p call validate db d w r c h =
    let a = transition_incident-Accepted P fire_id p call validate db d w r h in
    let e' : Episode = moved_episode p.target_status call.now a.episode in
    let i' : IncidentSeries = moved_incident p a.episode.status e'.verification_state a.incident in
    let (id, owner, status) = moved_identity p.target_status call.now a.episode in
    let (only, current) = scalar_one_unique (is_current_of a.incident.id) db.episodes a.current in
    rw (a.incidents, a.episodes)
      (put-IsCoherent i' a.episode e' id (owner ∙ ground arith) db.incidents db.episodes (rw status)
        only c)
