-- ===== src/Dispatch/Complete/Closing.antt =====
-- Every commit of `_complete` closes the dispatch.
use fireviewer_backend.Dispatch.Complete.{
  stored, complete, complete_output, complete_timed, done_row, finish_output, invalid_output,
  kept_row, persisted, with_raw,
}
use fireviewer_backend.Dispatch.Finish.{
  Checked, OutputStatus, Services, WorkerOutput, accepted, audit, dead_letter, output_failed,
  output_partial_failure, output_succeeded, refused, release_lease,
}
use fireviewer_backend.Dispatch.Finish.Closing.{
  Commits, IsClosed, dead_letter-IsClosed, has_commit, is_queued, refresh-IsClosed,
}
use fireviewer_backend.Dispatch.Rows.{Settings, AgentBatchState, AgentDispatchState, Work}
use fireviewer_backend.Dispatch.Transport.{RunPodTransport}
use fireviewer_backend.Platform.{Builtins, Fields, Platform, Value, get_field}
use fireviewer_backend.Prelude.{All, Option, String, false, refl, ℕ, ◌≡◌}

module _ {C : Type 0} (E : Type 0) (P : Platform) (B : Builtins) (X : Services C)
    (worker_id : String) (S : Settings) (client : RunPodTransport) (clock : ℕ → ℕ) where
  done_row-IsClosed :
      (d : AgentDispatchState) (b : AgentBatchState) (w : Work C)
      → is_queued d ≡ false
      → (d ≡ AgentDispatchState.succeeded → E)
      → All (IsClosed E) (done_row P B X worker_id S client clock d b w)
  unfolding done_row audit release_lease
  done_row-IsClosed d b w h earned =
      (refresh-IsClosed E P B X worker_id _ h (refl, refl) earned, tt)

  persisted-IsClosed :
      (c : Checked C) (status : OutputStatus) (w : Work C)
      → (status ≡ output_succeeded → E)
      → All (IsClosed E) (persisted P B X worker_id S client clock c status w)
  unfolding persisted
  persisted-IsClosed (refused words) status w earned =
      dead_letter-IsClosed E P B X worker_id _ _ _ _ w
  persisted-IsClosed (accepted tables) output_succeeded w earned =
      done_row-IsClosed _ _ (stored P B X worker_id S client clock tables w) refl (λ _. earned refl)
  persisted-IsClosed (accepted tables) output_partial_failure w earned =
      done_row-IsClosed _ _ (stored P B X worker_id S client clock tables w) refl (λ e. cc)
  persisted-IsClosed (accepted tables) output_failed w earned =
      done_row-IsClosed _ _ (stored P B X worker_id S client clock tables w) refl (λ e. cc)

  finish_output-IsClosed :
      (s : OutputStatus) (o : WorkerOutput) (w : Work C)
      → (s ≡ output_succeeded → E)
      → All (IsClosed E) (finish_output P B X worker_id S client clock s o w)
  unfolding finish_output
  finish_output-IsClosed output_failed o w earned = dead_letter-IsClosed E P B X worker_id _ _ _ _ w
  finish_output-IsClosed output_succeeded o w earned = persisted-IsClosed _ _ w earned
  finish_output-IsClosed output_partial_failure o w earned = persisted-IsClosed _ _ w earned

  complete_output-IsClosed :
      (o : WorkerOutput) (e d : Option ℕ) (w : Work C)
      → (o.status ≡ output_succeeded → E)
      → All (IsClosed E) (complete_output P B X worker_id S client clock o e d w)
  unfolding complete_output
  complete_output-IsClosed o e d w earned =
      finish_output-IsClosed o.status o (kept_row P B X worker_id S client clock o e d w) earned

  complete_timed-IsClosed :
      (raw : Option Value) (o : Checked WorkerOutput) (e d : Checked (Option ℕ)) (w : Work C)
      → ((x : WorkerOutput) → o ≡ accepted x → x.status ≡ output_succeeded → E)
      → All (IsClosed E) (complete_timed P B X worker_id S client clock raw o e d w)
  unfolding complete_timed invalid_output
  complete_timed-IsClosed raw (refused words) e d w earned =
      dead_letter-IsClosed E P B X worker_id _ _ _ _ (with_raw P B X worker_id S client clock raw w)
  complete_timed-IsClosed raw (accepted o) (refused words) d w earned =
      dead_letter-IsClosed E P B X worker_id _ _ _ _ (with_raw P B X worker_id S client clock raw w)
  complete_timed-IsClosed raw (accepted o) (accepted e) (refused words) w earned =
      dead_letter-IsClosed E P B X worker_id _ _ _ _ (with_raw P B X worker_id S client clock raw w)
  complete_timed-IsClosed raw (accepted o) (accepted e) (accepted d) w earned =
      complete_output-IsClosed o e d w (earned o refl)

  pub complete-IsClosed :
      (f : Fields) (w : Work C)
      → ((o : WorkerOutput)
          → X.validate_worker_output w.dispatch w.batch w.items (get_field "output" f) ≡ accepted o
          → o.status ≡ output_succeeded
          → E)
      → All (IsClosed E) (complete P B X worker_id S client clock f w)
  unfolding complete
  complete-IsClosed f w earned =
      complete_timed-IsClosed (get_field "output" f)
        (X.validate_worker_output w.dispatch w.batch w.items (get_field "output" f)) _ _ w earned

module _ {C : Type 0} (P : Platform) (B : Builtins) (X : Services C) (worker_id : String)
    (S : Settings) (client : RunPodTransport) (clock : ℕ → ℕ) where
  persisted-Commits :
      (c : Checked C) (status : OutputStatus) (w : Work C)
      → Commits (persisted P B X worker_id S client clock c status w)
  unfolding persisted done_row dead_letter has_commit
  persisted-Commits (refused words) status w = refl
  persisted-Commits (accepted tables) output_succeeded w = refl
  persisted-Commits (accepted tables) output_partial_failure w = refl
  persisted-Commits (accepted tables) output_failed w = refl

  finish_output-Commits :
      (s : OutputStatus) (o : WorkerOutput) (w : Work C)
      → Commits (finish_output P B X worker_id S client clock s o w)
  unfolding finish_output dead_letter has_commit
  finish_output-Commits output_failed o w = refl
  finish_output-Commits output_succeeded o w = persisted-Commits _ _ w
  finish_output-Commits output_partial_failure o w = persisted-Commits _ _ w

  complete_timed-Commits :
      (raw : Option Value) (o : Checked WorkerOutput) (e d : Checked (Option ℕ)) (w : Work C)
      → Commits (complete_timed P B X worker_id S client clock raw o e d w)
  unfolding complete_timed invalid_output complete_output dead_letter has_commit
  complete_timed-Commits raw (refused words) e d w = refl
  complete_timed-Commits raw (accepted o) (refused words) d w = refl
  complete_timed-Commits raw (accepted o) (accepted e) (refused words) w = refl
  complete_timed-Commits raw (accepted o) (accepted e) (accepted d) w =
      finish_output-Commits o.status o (kept_row P B X worker_id S client clock o e d w)

  pub complete-Commits :
      (f : Fields) (w : Work C) → Commits (complete P B X worker_id S client clock f w)
  unfolding complete
  complete-Commits f w =
      complete_timed-Commits (get_field "output" f)
        (X.validate_worker_output w.dispatch w.batch w.items (get_field "output" f)) _ _ w
