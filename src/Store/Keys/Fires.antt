-- ===== src/Store/Keys/Fires.antt =====
-- What the statements do to the latches of a session.
use forksan.Prelude.{
  Option, ℕ, ◌≡◌, ◌≢◌, refl, ◌∙◌, true, List, [], ◌∷◌, Text, All, arith, Bool-cases, inl, inr,
}
use forksan.Store.{
  Store, is_latched, upsert_session, bump_pause_epoch, set_pause_started_at_if_unset,
  set_last_activity, set_transcript_gauge, queue_fork, touch_fork_ran, record_issued_run,
  record_spawn, set_spawn_task_id, mark_spawn_terminal, insert_pending_dep, delete_pending_dep,
  clear_pending_deps, is_fork_spawn,
}
use forksan.Store.Latch.{try_latch_fire_lem}
use forksan.Store.Close.{close_session-SameSession}
use forksan.Store.Keys.{Statement, execute, run, closes, latches, ends}

-- The statement does not close the session.
abbrev pub KeepsOpen : Text → Statement → Type 0
KeepsOpen sid (closes u) = sid ≢ u
KeepsOpen sid q = Unit

module _ (sid name key : Text) where
  ends-is_latched :
      (u : Text) (tool task : Option Text) (status : Text) (now : ℕ) (s : Store)
      → is_latched sid name key (mark_spawn_terminal u tool task status now s).0
        ≡ is_latched sid name key s
  unfolding mark_spawn_terminal is_latched
  ends-is_latched u tool task status now s = elim (Bool-cases (is_fork_spawn u tool task s)) [
    | inl ours ↦ rw ours refl
    | inr other ↦ rw other refl
  ]

  execute-is_latched :
      (q : Statement) (s : Store)
      → KeepsOpen sid q
      → is_latched sid name key s ≡ true
      → is_latched sid name key (execute q s) ≡ true
  unfolding execute is_latched upsert_session bump_pause_epoch set_pause_started_at_if_unset
      set_last_activity set_transcript_gauge queue_fork touch_fork_ran record_issued_run
      record_spawn set_spawn_task_id insert_pending_dep delete_pending_dep clear_pending_deps
  execute-is_latched (closes u) s n h =
      (close_session-SameSession u sid s n).latches_same name key ∙ h
  execute-is_latched (latches a b c now) s n h =
      rw ((try_latch_fire_lem a b c now s).1 sid name key) (ground (arith, h))
  execute-is_latched (ends u tool task status now) s n h =
      ends-is_latched u tool task status now s ∙ h
  execute-is_latched _ s n h = h

  -- A latch stays closed until its session is closed.
  pub run-is_latched :
      (qs : List Statement) (s : Store)
      → All (KeepsOpen sid) qs
      → is_latched sid name key s ≡ true
      → is_latched sid name key (run qs s) ≡ true
  unfolding run
  run-is_latched [] s k h = h
  run-is_latched (q ∷ qs) s k h = run-is_latched qs (execute q s) k.1 (execute-is_latched q s k.0 h)
