-- ===== src/Dispatch/Runs/Terminal.antt =====
-- The terminal states of a dispatch are final.
-- A dispatch in a terminal state has no lease.
use fireviewer_backend.Dispatch.Claim.{
  cancelling_rows, due_items, is_claimable, is_due, is_listed, is_terminal, purge_chosen,
  purge_due_agent_media, redacted_rows, redacted_work,
}
use fireviewer_backend.Dispatch.Finish.{Services}
use fireviewer_backend.Dispatch.Finish.Closing.{IsClosed}
use fireviewer_backend.Dispatch.Handlers.{process_claimed_dispatch}
use fireviewer_backend.Dispatch.Handlers.Fenced.{process-IsFenced}
use fireviewer_backend.Dispatch.Poll.Closing.{IsEarned}
use fireviewer_backend.Dispatch.Rows.{
  Settings, Action, AgentDispatch, AgentDispatchState, AgentMediaItem, Work, asked_cancel,
  asked_status, committed, escaped, posted,
}
use fireviewer_backend.Dispatch.Runs.{Runs, claims, cut, durable_after, idle, processes, purges}
use fireviewer_backend.Dispatch.Submit.{fenced}
use fireviewer_backend.Dispatch.Transport.{RunPodTransport}
use fireviewer_backend.Platform.{Builtins, Platform, Value}
use fireviewer_backend.Prelude.{
  All, Bool, List, String, [], any, ap, arith, if_cases, inl, inr, none, refl, subst, suc, true,
  zero, ℕ, ◌++◌, ◌∙◌, ◌∷◌, ◌≡◌,
}

abbrev pub IsTidy : {C : Type 0} → Work C → Type 0
IsTidy w = is_terminal w.dispatch.state ≡ true → w.dispatch.lease_owner ≡ none

closed-IsTidy :
    {C : Type 0} (E : Type 0) (w : Work C) (k : ℕ) (t : List (Action C))
    → All (IsClosed E) t
    → IsTidy w
    → IsTidy (durable_after w (cut k t))
unfolding durable_after cut
closed-IsTidy E w zero t h tidy = tidy
closed-IsTidy E w (suc k) [] h tidy = tidy
closed-IsTidy E w (suc k) (committed v ∷ t) h tidy = closed-IsTidy E v k t h.1 (λ _. h.0.1.0)
closed-IsTidy E w (suc k) (posted payload ∷ t) h tidy = absurd h.0
closed-IsTidy E w (suc k) (asked_status id ∷ t) h tidy = closed-IsTidy E w k t h.1 tidy
closed-IsTidy E w (suc k) (asked_cancel id ∷ t) h tidy = closed-IsTidy E w k t h.1 tidy
closed-IsTidy E w (suc k) (escaped words ∷ t) h tidy = closed-IsTidy E w k t h.1 tidy

fenced-IsTidy :
    {C : Type 0} (E : Type 0) (w v : Work C) (payload : Value) (k : ℕ) (t : List (Action C))
    → All (IsClosed E) t
    → IsTidy v
    → IsTidy w
    → IsTidy (durable_after w (cut k (committed v ∷ posted payload ∷ t)))
unfolding durable_after cut
fenced-IsTidy E w v payload zero t h fence tidy = tidy
fenced-IsTidy E w v payload (suc zero) t h fence tidy = fence
fenced-IsTidy E w v payload (suc (suc k)) t h fence tidy = closed-IsTidy E v k t h fence

claimable-not_terminal : (s : AgentDispatchState) → is_claimable s ≡ true → is_terminal s ≡ true → ⊥
claimable-not_terminal AgentDispatchState.queued c t = cc
claimable-not_terminal AgentDispatchState.submitting c t = cc
claimable-not_terminal AgentDispatchState.awaiting_remote c t = cc
claimable-not_terminal AgentDispatchState.poll_wait c t = cc
claimable-not_terminal AgentDispatchState.cancel_requested c t = cc
claimable-not_terminal AgentDispatchState.succeeded c t = cc
claimable-not_terminal AgentDispatchState.partial_failure c t = cc
claimable-not_terminal AgentDispatchState.failed c t = cc
claimable-not_terminal AgentDispatchState.dead_letter c t = cc
claimable-not_terminal AgentDispatchState.cancelled c t = cc

nothing_done : {C : Type 0} (w : Work C) (k : ℕ) → durable_after w (cut k []) ≡ w
unfolding durable_after cut
nothing_done w zero = refl
nothing_done w (suc k) = refl

due-state :
    (S : Settings) (states : AgentDispatchState → Bool) (now : ℕ) (d : AgentDispatch)
    → is_due S states now d ≡ true
    → states d.state ≡ true
unfolding is_due
due-state S states now d h = ground arith

-- What a step may do to a dispatch, seen from its state.
abbrev pub Follows : {C : Type 0} → Work C → Work C → Type 0
Follows w v =
    IsTidy v
    × (is_terminal w.dispatch.state ≡ true
        → (v.dispatch.state ≡ w.dispatch.state) × (v.batch.state ≡ w.batch.state))

module _ {C : Type 0} (P : Platform) (B : Builtins) (X : Services C) (S : Settings) where
  -- Without the lease a run does nothing.
  unleased-process :
      (w : Work C) (worker_id : String) (client : RunPodTransport) (clock : ℕ → ℕ)
      → w.dispatch.lease_owner ≡ none
      → process_claimed_dispatch P B X worker_id S client clock w ≡ []
  unfolding process_claimed_dispatch
  unleased-process w worker_id client clock h = rw h refl

  process-IsTidy :
      (w : Work C) (worker_id : String) (client : RunPodTransport) (clock : ℕ → ℕ) (k : ℕ)
      → IsTidy w
      → IsTidy (durable_after w (cut k (process_claimed_dispatch P B X worker_id S client clock w)))
  process-IsTidy w worker_id client clock k tidy =
      elim (process-IsFenced P B X worker_id S client clock w) [
        | inl ends ↦ closed-IsTidy (IsEarned B X client w) w k _ ends tidy
        | inr (was_queued, (rest, ends, _, same)) ↦ rw same (
            fenced-IsTidy (IsEarned B X client w) w (fenced P B X worker_id S client clock w)
              w.dispatch.payload k rest ends (unfold fenced in λ t. cc) tidy)
      ]

  unleased-durable :
      (w : Work C) (worker_id : String) (client : RunPodTransport) (clock : ℕ → ℕ) (k : ℕ)
      → w.dispatch.lease_owner ≡ none
      → durable_after w (cut k (process_claimed_dispatch P B X worker_id S client clock w)) ≡ w
  unleased-durable w worker_id client clock k h =
      rw (unleased-process w worker_id client clock h) (nothing_done w k)

  purge-Follows :
      (w : Work C) (limit now : ℕ) (others : List AgentMediaItem)
      → IsTidy w
      → Follows w (purge_due_agent_media limit now others w)
  unfolding purge_due_agent_media purge_chosen redacted_work
  purge-Follows w limit now others tidy =
      let chosen = is_listed (due_items limit now (others ++ w.items)) in
      if_cases (Follows w) (any chosen w.items) {x = redacted_work chosen now w} {y = w}
        (λ _.
          if_cases (Follows w) (is_terminal w.dispatch.state) {x = redacted_rows chosen now w}
            {y = cancelling_rows chosen now w} (λ _. (tidy, λ _. (refl, refl)))
            (λ live. ((λ _. refl), λ t. cc)))
        (λ _. (tidy, λ _. (refl, refl)))

  -- In a dispatch that has no lease in a terminal state, a terminal state is final: no sequence of
  -- claims, purges and runs changes the state of the dispatch or of its batch, and every dispatch
  -- that the sequence retires has no lease either.
  pub terminal_absorbs : {w v : Work C} {n : ℕ} → Runs P B X S w n v → IsTidy w → Follows w v
  terminal_absorbs (idle w) tidy = (tidy, λ _. (refl, refl))
  terminal_absorbs {v} (claims w worker_id states now only due rest) tidy =
      let live = claimable-not_terminal _ (only _ (due-state S states now w.dispatch due)) in
      let (tidy', _) = terminal_absorbs rest (λ t. absurd (live t)) in (tidy', λ t. absurd (live t))
  terminal_absorbs {v} (processes w worker_id client clock stop rest) tidy =
      let (tidy', keeps) =
        terminal_absorbs rest (process-IsTidy w worker_id client clock stop tidy) in
      (
        tidy',
        λ t.
            subst
              (λ (d : Work C).
                is_terminal d.dispatch.state ≡ true
                → (v.dispatch.state ≡ d.dispatch.state) × (v.batch.state ≡ d.batch.state))
              (unleased-durable w worker_id client clock stop (tidy t)) keeps t,
      )
  terminal_absorbs (purges w limit now others rest) tidy =
      let (tidy₁, first) = purge-Follows w limit now others tidy in
      let (tidy₂, then_on) = terminal_absorbs rest tidy₁ in
      (
        tidy₂,
        λ t.
            let (d, b) = first t in
            let (d', b') = then_on (ap is_terminal d ∙ t) in (d' ∙ d, b' ∙ b),
      )
