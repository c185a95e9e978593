-- ===== src/Dispatch/Finish/Closing.antt =====
-- What the commits of the handlers have in common: each leaves the lease free and the dispatch out of
-- the queue, and marks a success only on the strength of what the handler read. Only the fence of `_submit` keeps the lease.
use fireviewer_backend.Dispatch.Finish.{
  Services, audit, cancelled_row, dead_letter, dead_row, refresh, refresh-dispatch, release_lease,
}
use fireviewer_backend.Dispatch.Rows.{
  Action, AgentDispatch, AgentDispatchState, Work, asked_cancel, asked_status, committed, escaped,
  posted,
}
use fireviewer_backend.Platform.{Builtins, Platform}
use fireviewer_backend.Prelude.{
  All, Bool, List, Option, String, [], ap, false, none, refl, sym, true, ℕ, ◌∙◌, ◌∷◌, ◌≡◌,
}

abbrev pub is_queued : AgentDispatchState → Bool
is_queued AgentDispatchState.queued = true
is_queued _ = false

-- No worker holds the dispatch, for no time.
abbrev pub IsFree : AgentDispatch → Type 0
IsFree d = (d.lease_owner ≡ none) × (d.lease_until ≡ none)

-- `E` is what a success rests on.
abbrev pub IsClosed : {C : Type 0} → Type 0 → Action C → Type 0
IsClosed E (committed w) =
    (is_queued w.dispatch.state ≡ false)
    × IsFree w.dispatch
    × (w.dispatch.state ≡ AgentDispatchState.succeeded → E)
IsClosed E (posted payload) = ⊥
IsClosed E (asked_status id) = Unit {0}
IsClosed E (asked_cancel id) = Unit {0}
IsClosed E (escaped words) = Unit {0}

-- Whether a run commits at all.
unfoldable pub has_commit : {C : Type 0} → List (Action C) → Bool
has_commit [] = false
has_commit (committed w ∷ rest) = true
has_commit (posted payload ∷ rest) = has_commit rest
has_commit (asked_status id ∷ rest) = has_commit rest
has_commit (asked_cancel id ∷ rest) = has_commit rest
has_commit (escaped words ∷ rest) = has_commit rest

abbrev pub Commits : {C : Type 0} → List (Action C) → Type 0
Commits trace = has_commit trace ≡ true

module _ {C : Type 0} (E : Type 0) (P : Platform) (B : Builtins) (X : Services C)
    (worker_id : String) where
  pub refresh-IsClosed :
      (w : Work C)
      → is_queued w.dispatch.state ≡ false
      → IsFree w.dispatch
      → (w.dispatch.state ≡ AgentDispatchState.succeeded → E)
      → IsClosed E (committed (refresh P B X worker_id w))
  refresh-IsClosed w a b c =
      let same = refresh-dispatch P B X worker_id w in
      (
        ap (λ (d : AgentDispatch). is_queued d.state) same ∙ a,
        (
          ap (λ (d : AgentDispatch). d.lease_owner) same ∙ b.0,
          ap (λ (d : AgentDispatch). d.lease_until) same ∙ b.1,
        ),
        λ e. c (sym (ap (λ (d : AgentDispatch). d.state) same) ∙ e),
      )

  pub dead_letter-IsClosed :
      (c e d : String) (now : ℕ) (w : Work C)
      → All (IsClosed E) (dead_letter P B X worker_id c e d now w)
  unfolding dead_letter dead_row audit release_lease
  dead_letter-IsClosed c e d now w = (refresh-IsClosed _ refl (refl, refl) (λ e. cc), tt)

  pub cancelled_row-IsClosed :
      (now : ℕ) (status : Option String) (w : Work C)
      → All (IsClosed E) (cancelled_row P B X worker_id now status w)
  unfolding cancelled_row release_lease
  cancelled_row-IsClosed now status w = (refresh-IsClosed _ refl (refl, refl) (λ e. cc), tt)
