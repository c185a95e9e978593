-- ===== src/Dispatch/Handlers.antt =====
-- `process_claimed_dispatch`: the deadline, and the handler for the state.
pub mod Fenced
use fireviewer_backend.Dispatch.Cancel.{cancel}
use fireviewer_backend.Dispatch.Finish.{Services, dead_letter, die}
use fireviewer_backend.Dispatch.Poll.{poll}
use fireviewer_backend.Dispatch.Rows.{
  Action, AgentDispatchState, Settings, Work, asked_cancel, escaped,
}
use fireviewer_backend.Dispatch.Submit.{submit}
use fireviewer_backend.Dispatch.Transport.{Reply, RunPodTransport, value_error}
use fireviewer_backend.Platform.{Builtins, Platform}
use fireviewer_backend.Prelude.{
  Bool, List, Option, String, [], false, if◌then◌else◌, leb, none, not, some, str_eq, ℕ, ◌∷◌,
}

module _ {C : Type 0} (P : Platform) (B : Builtins) (X : Services C) (worker_id : String)
    (S : Settings) (client : RunPodTransport) (clock : ℕ → ℕ) where
  abbrev expire : Work C → List (Action C)
  expire w =
      die P B X worker_id clock "deadline" "agent_batch_deadline_exceeded"
        "The agent batch deadline elapsed before a validated result was persisted." w

  -- `suppress(httpx.HTTPError)` lets a ValueError through.
  expire_answered : Reply → Work C → List (Action C)
  unfolding dead_letter
  expire_answered (value_error words) w = escaped words ∷ []
  expire_answered _ w = expire w

  expire_job : Option String → Work C → List (Action C)
  unfolding expire_answered dead_letter
  expire_job none w = expire w
  expire_job (some job_id) w = asked_cancel job_id ∷ expire_answered (client.cancel job_id) w

  is_past : Option ℕ → ℕ → Bool
  is_past none now = false
  is_past (some t) now = leb t now

  by_state : AgentDispatchState → Work C → List (Action C)
  unfolding submit cancel poll dead_letter
  by_state AgentDispatchState.submitting w =
      die P B X worker_id clock "ambiguous_submission" "agent_stale_submitting_state"
        "A prior dispatcher stopped after crossing the submission fence; automatic resubmission is forbidden."
        w
  by_state AgentDispatchState.queued w = submit P B X worker_id S client clock w
  by_state AgentDispatchState.cancel_requested w = cancel P B X worker_id S client clock w
  by_state _ w = poll P B X worker_id S client clock w

  is_owner : Option String → Bool
  is_owner none = false
  is_owner (some owner) = str_eq owner worker_id

  unfoldable pub process_claimed_dispatch : Work C → List (Action C)
  unfolding is_owner is_past expire_job by_state
  process_claimed_dispatch w =
      if not (is_owner w.dispatch.lease_owner)
      then []
      else if is_past w.dispatch.deadline_at (clock 0)
      then expire_job w.dispatch.remote_job_id w
      else by_state w.dispatch.state w
