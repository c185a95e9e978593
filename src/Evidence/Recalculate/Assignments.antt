-- ===== src/Evidence/Recalculate/Assignments.antt =====
-- The assignments of a recalculation to the episode: its state is the computed one, its status and its
-- identity stay.
-- What an assignment to the episode leaves alone.
use fireviewer_backend.Enums.{
  VerificationState, corroborated, pending_review, same_verification, same_verification-≡,
  same_visibility, unverified, verified,
}
use fireviewer_backend.Evidence.Recalculate.{
  bump, clear_basis, eligible_observations, is_verified, latest, next_episode, next_incident,
  next_state_of, recalculate_episode_evidence, row_changes, set_basis, set_count, set_dates,
  set_human, set_latest, set_state,
}
use fireviewer_backend.Evidence.Select.{maximum_independent_set}
use fireviewer_backend.Incident.Rows.{
  Episode, IncidentSeries, Observation, Source, episode_identity, incident_identity,
}
use fireviewer_backend.Incident.Visibility.{canonical_public_visibility}
use fireviewer_backend.Prelude.{
  Bool, List, Option, any, false, if_cases, length, ltb, none, refl, some, true, ℕ, ◌==◌, ◌∙◌, ◌≡◌,
}

Keeps : Episode × Bool → Episode × Bool → Type 0
Keeps p q =
    (q.0.verification_state ≡ p.0.verification_state)
    × (q.0.status ≡ p.0.status)
    × (episode_identity q.0 ≡ episode_identity p.0)

Keeps-∙ : (p q r : Episode × Bool) → Keeps p q → Keeps q r → Keeps p r
unfolding Keeps
Keeps-∙ p q r (a, b, c) (d, e, f) = (d ∙ a, e ∙ b, f ∙ c)

-- After the first assignment the episode has the given state, and its own status.
abbrev pub HasState : VerificationState → Episode → Episode × Bool → Type 0
HasState next e q =
    (q.0.verification_state ≡ next)
    × (q.0.status ≡ e.status)
    × (episode_identity q.0 ≡ episode_identity e)

HasState-Keeps :
    (next : VerificationState) (e : Episode) (p q : Episode × Bool)
    → HasState next e p
    → Keeps p q
    → HasState next e q
unfolding Keeps
HasState-Keeps next e p q (a, b, c) (d, f, g) = (d ∙ a, f ∙ b, g ∙ c)

set_state-HasState :
    (next : VerificationState) (e : Episode) (changed : Bool)
    → HasState next e (set_state next (e, changed))
set_state-HasState next e changed =
    if_cases (HasState next e) (same_verification e.verification_state next)
      (λ h. (same_verification-≡ _ _ h, refl, refl)) (λ _. (refl, refl, refl))

set_count-Keeps : (n : ℕ) (p : Episode × Bool) → Keeps p (set_count n p)
unfolding Keeps
set_count-Keeps n (e, changed) =
    if_cases (Keeps (e, changed)) (e.corroborating_source_count == n) (λ _. (refl, refl, refl))
      (λ _. (refl, refl, refl))

set_human-Keeps : (at : Option ℕ) (p : Episode × Bool) → Keeps p (set_human at p)
unfolding Keeps
set_human-Keeps none (e, changed) = (refl, refl, refl)
set_human-Keeps (some at) (e, changed) = (refl, refl, refl)

set_basis-Keeps : (at : Option ℕ) (now : ℕ) (p : Episode × Bool) → Keeps p (set_basis at now p)
unfolding Keeps
set_basis-Keeps none now (e, changed) = (refl, refl, refl)
set_basis-Keeps (some at) now (e, changed) = (refl, refl, refl)

clear_basis-Keeps : (at : Option ℕ) (p : Episode × Bool) → Keeps p (clear_basis at p)
unfolding Keeps
clear_basis-Keeps none (e, changed) = (refl, refl, refl)
clear_basis-Keeps (some at) (e, changed) = (refl, refl, refl)

set_latest-Keeps : (newest : Option ℕ) (p : Episode × Bool) → Keeps p (set_latest newest p)
unfolding Keeps
set_latest-Keeps none (e, changed) = (refl, refl, refl)
set_latest-Keeps (some at) (e, changed) =
    if_cases (Keeps (e, changed)) (ltb e.last_observed_at at) (λ _. (refl, refl, refl))
      (λ _. (refl, refl, refl))

dated :
    (newest : Option ℕ) (now : ℕ) (e : Episode) (changed : Bool)
    → Keeps (e, changed) (set_latest newest (set_basis e.evidence_basis_at now (e, changed)))
dated newest now e changed =
    let p = set_basis e.evidence_basis_at now (e, changed) in
    Keeps-∙ (e, changed) p (set_latest newest p)
      (set_basis-Keeps e.evidence_basis_at now (e, changed)) (set_latest-Keeps newest p)

set_dates-Keeps :
    (next previous : VerificationState) (now : ℕ) (newest : Option ℕ) (p : Episode × Bool)
    → Keeps p (set_dates next previous now newest p)
set_dates-Keeps unverified previous now newest (e, changed) =
    if_cases (Keeps (e, changed)) (same_verification previous corroborated)
      (λ _. clear_basis-Keeps e.evidence_basis_at (e, changed))
      (λ _. unfold Keeps in (refl, refl, refl))
set_dates-Keeps pending_review previous now newest (e, changed) = dated newest now e changed
set_dates-Keeps corroborated previous now newest (e, changed) = dated newest now e changed
set_dates-Keeps verified previous now newest (e, changed) = dated newest now e changed
set_dates-Keeps VerificationState.rejected previous now newest (e, changed) =
    dated newest now e changed

bump-Keeps : (p : Episode × Bool) → Keeps p (bump p)
unfolding Keeps
bump-Keeps (e, false) = (refl, refl, refl)
bump-Keeps (e, true) = (refl, refl, refl)

pub next_episode-HasState :
    (next : VerificationState) (selected : List Observation) (now : ℕ) (human : Option ℕ)
    (changed : Bool) (e : Episode)
    → HasState next e (next_episode next selected now human changed e)
unfolding next_episode
next_episode-HasState next selected now human changed e =
    let p1 = set_state next (e, changed) in
    let p2 = set_count (length selected) p1 in
    let p3 = set_human human p2 in
    let p4 = set_dates next e.verification_state now (latest selected) p3 in
    HasState-Keeps next e p1 (bump p4) (set_state-HasState next e changed) (
      Keeps-∙ p1 p2 (bump p4) (set_count-Keeps (length selected) p1) (
        Keeps-∙ p2 p3 (bump p4) (set_human-Keeps human p2) (
          Keeps-∙ p3 p4 (bump p4)
            (set_dates-Keeps next e.verification_state now (latest selected) p3) (bump-Keeps p4))))

next_incident_identity :
    (e : Episode) (i : IncidentSeries)
    → incident_identity (next_incident e i).0 ≡ incident_identity i
unfolding next_incident
next_incident_identity e i =
    let v = canonical_public_visibility e.status e.verification_state in
    if_cases (λ (p : IncidentSeries × Bool). incident_identity p.0 ≡ incident_identity i)
      (same_visibility i.public_visibility v) (λ _. refl) (λ _. refl)

-- A recalculation keeps the identity of the rows.
pub recalculate_identity :
    (threshold now : ℕ) (human : Option ℕ) (sources : List Source) (i : IncidentSeries)
    (e : Episode) (table : List Observation)
    → let r = recalculate_episode_evidence threshold now human sources i e table in
      (incident_identity r.incident ≡ incident_identity i)
      × (episode_identity r.episode ≡ episode_identity e)
unfolding recalculate_episode_evidence
recalculate_identity threshold now human sources i e table =
    let os = eligible_observations sources e.id table in
    let selected = maximum_independent_set os in
    let next = next_state_of (any is_verified os) (length selected) threshold in
    let changed = any (row_changes next selected) os in
    (
      next_incident_identity (next_episode next selected now human changed e).0 i,
      (next_episode-HasState next selected now human changed e).2,
    )
