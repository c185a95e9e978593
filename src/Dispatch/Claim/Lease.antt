-- ===== src/Dispatch/Claim/Lease.antt =====
-- What a claim gives its worker: a due dispatch, and the exclusive right to it while the lease lasts.
use fireviewer_backend.Dispatch.Claim.{claim_next_dispatch, is_due, leased, stale_active_remote}
use fireviewer_backend.Dispatch.Rows.{AgentDispatch, AgentDispatchState, Settings, second}
use fireviewer_backend.Prelude.{
  All, Bool, Bool-cases, List, String, [], arith, false, inl, inr, some, update, ℕ, ◌*◌, ◌+◌, ◌<◌,
  ◌==◌, ◌∷◌, ◌≡◌,
}

module _ (nulls_first : Bool) (S : Settings) (worker_id : String)
    (states : AgentDispatchState → Bool) (now : ℕ) where
  leased-not_due :
      (S' : Settings) (others : AgentDispatchState → Bool) (t : ℕ) (d : AgentDispatch)
      → t < now + S.agent_dispatch_lease_seconds * second
      → is_due S' others t (leased S worker_id now d) ≡ false
  unfolding is_due stale_active_remote
  leased-not_due S' others t d early = ground arith

  held_rows :
      (id : ℕ) (S' : Settings) (others : AgentDispatchState → Bool) (t : ℕ)
      → t < now + S.agent_dispatch_lease_seconds * second
      → (table : List AgentDispatch)
      → All
          (λ (d : AgentDispatch). d.id ≡ id → is_due S' others t d ≡ false)
          (update (λ (d : AgentDispatch). d.id == id) (leased S worker_id now) table)
  unfolding update
  held_rows id S' others t early [] = tt
  held_rows id S' others t early (d ∷ ds) =
      let rest = held_rows id S' others t early ds in
      elim (Bool-cases (d.id == id)) [
        | inl same ↦ rw same ((λ _. leased-not_due S' others t d early), rest)
        | inr other ↦ rw other ((λ same. absurd (ground (arith, same, other))), rest)
      ]

  -- Until the lease ends, the claimed dispatch is due for nobody, whatever states are asked for.
  pub claim-exclusive :
      (table : List AgentDispatch) {id : ℕ}
      → (claim_next_dispatch nulls_first S worker_id states now table).0 ≡ some id
      → (S' : Settings) (others : AgentDispatchState → Bool) (t : ℕ)
      → t < now + S.agent_dispatch_lease_seconds * second
      → All
          (λ (d : AgentDispatch). d.id ≡ id → is_due S' others t d ≡ false)
          (claim_next_dispatch nulls_first S worker_id states now table).1
  unfolding claim_next_dispatch
  claim-exclusive table e S' others t early = rw e (held_rows _ S' others t early table)
