-- ===== src/Reaper/Tests.antt =====
-- Closing at a concrete store.
use forksan.Prelude.{
  ℕ, wrapping_sub, ◌+◌, ◌*◌, ◌<◌, ◌≤◌, ◌⊎◌, arith, ltb_i64, wrapping_mul, ◌≡◌, ◌↔◌, refl, true,
  false, [], ◌∷◌, none, codes, In,
}
use forksan.Store.{Store, SessionRow, SessionEvent, empty, opened, list_open_sessions}
use forksan.Store.Keys.{run, run-IsKeyed, upserts}
use forksan.Reaper.{reap, prune, is_timed_out, is_stale}
use forksan.Reaper.Closed.{reap-prune}

abbrev event : SessionEvent
event = record {
  session_id = codes "s1";
  project_root = codes "/p";
  cwd = codes "/p";
  transcript_path = none;
  model = none;
  enable_tags = none;
  disable_tags = none;
}

abbrev row : SessionRow
row = record {
  session_id = codes "s1";
  project_root = codes "/p";
  cwd = codes "/p";
  transcript_path = none;
  status = opened;
  last_activity = 5;
  transcript_offset = 0;
  prompt_tokens = none;
  model = none;
  created_at = 5;
  enable_tags = none;
  disable_tags = none;
  pause_epoch = 0;
  pause_started_at = none;
}

is_timed_out-row : is_timed_out (λ root. 100) 105 row ≡ true
unfolding is_timed_out
is_timed_out-row = refl

is_stale-row : is_stale (λ sid. false) (λ root. 50) 105 row ≡ false
unfolding is_stale ltb_i64 wrapping_mul wrapping_sub
is_stale-row = refl

abbrev one_session : Store
one_session = run (upserts event 5 ∷ []) empty

reap-prune_example :
    (In row (list_open_sessions (reap (λ root. 100) 105 one_session))
      ↔ (In row (list_open_sessions one_session) × (◌≡◌ {A = ℕ} 100 0 ⊎ (105 < 5 + 100))))
    × (In row (list_open_sessions (prune (λ sid. false) (λ root. 50) 105 one_session).0) ↔ (
        In row (list_open_sessions one_session)
        × ((false ≡ true) ⊎ (◌≡◌ {A = ℕ} 50 0 ⊎ (105 ≤ 5 + 2 * 50)))))
reap-prune_example =
    reap-prune (λ root. 100) (λ root. 50) (λ sid. false) 105 one_session row
      (run-IsKeyed (upserts event 5 ∷ [])) (omega arith) (omega arith) (omega arith)
