-- ===== src/Dispatch/Runs/Earned.antt =====
-- A success comes from the answer of the remote side for the job of the dispatch.
use fireviewer_backend.Dispatch.Claim.{
  cancelling_rows, is_terminal, purge_chosen, purge_due_agent_media, redacted_rows, redacted_work,
}
use fireviewer_backend.Dispatch.Finish.{Services}
use fireviewer_backend.Dispatch.Finish.Closing.{IsClosed}
use fireviewer_backend.Dispatch.Handlers.{process_claimed_dispatch}
use fireviewer_backend.Dispatch.Handlers.Fenced.{process-IsFenced}
use fireviewer_backend.Dispatch.Poll.Closing.{IsEarned}
use fireviewer_backend.Dispatch.Rows.{
  Settings, Action, AgentDispatchState, AgentMediaItem, Work, asked_cancel, asked_status, committed,
  escaped, posted,
}
use fireviewer_backend.Dispatch.Runs.{Runs, claims, cut, durable_after, idle, processes, purges}
use fireviewer_backend.Dispatch.Submit.{fenced}
use fireviewer_backend.Dispatch.Transport.{RunPodTransport}
use fireviewer_backend.Platform.{Builtins, Platform, Value}
use fireviewer_backend.Prelude.{
  All, Bool, List, String, [], any, if_cases, inl, inr, suc, zero, ℕ, ◌∷◌, ◌≡◌, ◌≢◌, ◌⊎◌,
}

abbrev IsHonest : {C : Type 0} → Type 0 → Work C → Type 0
IsHonest G w = w.dispatch.state ≡ AgentDispatchState.succeeded → G

closed-IsHonest :
    {C G : Type 0} (E : Type 0) (w : Work C) (k : ℕ) (t : List (Action C))
    → (E → G)
    → All (IsClosed E) t
    → IsHonest G w
    → IsHonest G (durable_after w (cut k t))
unfolding durable_after cut
closed-IsHonest E w zero t into h honest = honest
closed-IsHonest E w (suc k) [] into h honest = honest
closed-IsHonest E w (suc k) (committed v ∷ t) into h honest =
    closed-IsHonest E v k t into h.1 (λ e. into (h.0.2 e))
closed-IsHonest E w (suc k) (posted payload ∷ t) into h honest = absurd h.0
closed-IsHonest E w (suc k) (asked_status id ∷ t) into h honest =
    closed-IsHonest E w k t into h.1 honest
closed-IsHonest E w (suc k) (asked_cancel id ∷ t) into h honest =
    closed-IsHonest E w k t into h.1 honest
closed-IsHonest E w (suc k) (escaped words ∷ t) into h honest =
    closed-IsHonest E w k t into h.1 honest

fenced-IsHonest :
    {C G : Type 0} (E : Type 0) (w v : Work C) (payload : Value) (k : ℕ) (t : List (Action C))
    → (E → G)
    → All (IsClosed E) t
    → IsHonest G v
    → IsHonest G w
    → IsHonest G (durable_after w (cut k (committed v ∷ posted payload ∷ t)))
unfolding durable_after cut
fenced-IsHonest E w v payload zero t into h fence honest = honest
fenced-IsHonest E w v payload (suc zero) t into h fence honest = fence
fenced-IsHonest E w v payload (suc (suc k)) t into h fence honest =
    closed-IsHonest E v k t into h fence

module _ {C : Type 0} (P : Platform) (B : Builtins) (X : Services C) (S : Settings) where
  process-IsHonest :
      {G : Type 0} (w : Work C) (worker_id : String) (client : RunPodTransport) (clock : ℕ → ℕ)
      (k : ℕ)
      → (IsEarned B X client w → G)
      → IsHonest G w
      → IsHonest G
          (durable_after w (cut k (process_claimed_dispatch P B X worker_id S client clock w)))
  process-IsHonest w worker_id client clock k into honest =
      elim (process-IsFenced P B X worker_id S client clock w) [
        | inl ends ↦ closed-IsHonest (IsEarned B X client w) w k _ into ends honest
        | inr (was_queued, (rest, ends, _, same)) ↦ rw same (
            fenced-IsHonest (IsEarned B X client w) w (fenced P B X worker_id S client clock w)
              w.dispatch.payload k rest into ends (unfold fenced in λ e. cc) honest)
      ]

  purge-IsHonest :
      {G : Type 0} (w : Work C) (chosen : AgentMediaItem → Bool) (now : ℕ)
      → IsHonest G w
      → IsHonest G (purge_chosen chosen now w)
  unfolding purge_chosen redacted_work
  purge-IsHonest {G} w chosen now honest =
      if_cases (IsHonest G) (any chosen w.items) {x = redacted_work chosen now w} {y = w}
        (λ _.
          if_cases (IsHonest G) (is_terminal w.dispatch.state) {x = redacted_rows chosen now w}
            {y = cancelling_rows chosen now w} (λ _. honest) (λ _ e. cc))
        (λ _. honest)

  -- Some run among the steps read an answer that earns the success.
  abbrev pub EarnedIn : {w v : Work C} {n : ℕ} → Runs P B X S w n v → Type 0
  EarnedIn (idle w) = ⊥
  EarnedIn (claims w worker_id states now only due rest) = EarnedIn rest
  EarnedIn (processes w worker_id client clock stop rest) = IsEarned B X client w ⊎ EarnedIn rest
  EarnedIn (purges w limit now others rest) = EarnedIn rest

  Runs-EarnedIn :
      {G : Type 0} {w v : Work C} {n : ℕ} (r : Runs P B X S w n v)
      → IsHonest G w
      → v.dispatch.state ≡ AgentDispatchState.succeeded
      → G ⊎ EarnedIn r
  unfolding purge_due_agent_media
  Runs-EarnedIn (idle w) honest done = inl (honest done)
  Runs-EarnedIn (claims w worker_id states now only due rest) honest done =
      Runs-EarnedIn rest honest done
  Runs-EarnedIn {G} (processes w worker_id client clock stop rest) honest done =
      elim (Runs-EarnedIn {G = G ⊎ IsEarned B X client w} rest
        (process-IsHonest w worker_id client clock stop inr (λ e. inl (honest e))) done) [
          | inl (inl g) ↦ inl g
          | inl (inr earned) ↦ inr (inl earned)
          | inr later ↦ inr (inr later)
        ]
  Runs-EarnedIn (purges w limit now others rest) honest done =
      Runs-EarnedIn rest (purge-IsHonest w _ now honest) done

  -- If a dispatch that had not succeeded succeeds over a sequence of claims, purges and interrupted
  -- runs, then in one of those runs the remote side answered for the job of the dispatch that it is
  -- completed, and the validation accepted the output of that answer for the dispatch, its batch and
  -- its items, with the status of a success.
  pub succeeded-EarnedIn :
      {w v : Work C} {n : ℕ} (r : Runs P B X S w n v)
      → w.dispatch.state ≢ AgentDispatchState.succeeded
      → v.dispatch.state ≡ AgentDispatchState.succeeded
      → EarnedIn r
  succeeded-EarnedIn r fresh done = elim (Runs-EarnedIn {G = ⊥} r fresh done) [
    | inl none_before ↦ absurd none_before
    | inr earned ↦ earned
  ]
