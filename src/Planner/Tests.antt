-- ===== src/Planner/Tests.antt =====
-- The planner at a concrete session.
use forksan.Prelude.{arith, ap, sym, ℕ, ◌∙◌, subst, strip_prefix}
use forksan.Frontmatter.Parse.{parse_run_on_entry, parse_token_count}
use forksan.Frontmatter.File.{parse_fork_file, split_frontmatter, parse_raw, is_marked, define_fork}
use forksan.Prelude.{
  ◌≡◌, ◌≢◌, ◌↔◌, ◌⊎◌, inl, refl, true, false, List, [], ◌∷◌, none, some, Text, codes, In, text_beq,
  text_eq, split, filter, any, find_text, find, all, sort_by, to_string,
}
use forksan.Frontmatter.{ForkRunOn, label, is_supported}
use forksan.Moments.{ForkMoment, idle, context, match_moments, hits}
use forksan.Store.{
  Store, SessionRow, PendingDep, empty, opened, list_pending_deps, queue_fork, roster, is_latched,
  bump_pause_epoch, record_issued_run, touch_fork_ran, try_latch_fire,
}
use forksan.Store.Keys.{Statement, execute, bumps, run, run-IsKeyed, holds, spawns, ends}
use forksan.Wake.{looks_like_continuation}
use forksan.Config.{Config, default_config}
use forksan.Discovery.{Found}
use forksan.Discovery.Tests.{two_triggers_of, disk, discover_forks-learner}
use forksan.Planner.{SelectedFork, Files, Daemon, note_wake_issued, latch_key_for, file_stem}
use forksan.Planner.Select.{
  visible_forks, select_forks, refresh_roster, queue_all, select_entry, select_def, select_matched,
  as_fork, fork_throttled, tag_throttled, latch_taken,
}
use forksan.Planner.Issue.{
  issue, issue_one, add_issued, stamp, latch, preds_of, build_wake, release_due,
}
use mathlib.Core.List.{filter_map}
use forksan.Sql.{insert_or_ignore, update_where, count_where}
use forksan.Tags.{tags_allowed}
use forksan.Schedule.{
  resolve_deps, break_cycles, first_undone, runnable_nodes, peel, pass, requested,
}
use forksan.Planner.Once.{select_and_wake, select_forks-build_wake}
use forksan.Planner.Keys.{IsIdle, latch_key_for_iff}
use forksan.Planner.Roots.{build_wake-looks_like_continuation}
use forksan.Planner.Release.{IsReady, Outcome, release_due_lem}

abbrev session : SessionRow
session = record {
  session_id = codes "s1";
  project_root = codes "/p";
  cwd = codes "/p";
  transcript_path = some (codes "/t/c1.jsonl");
  status = opened;
  last_activity = 5;
  transcript_offset = 0;
  prompt_tokens = none;
  model = none;
  created_at = 5;
  enable_tags = none;
  disable_tags = none;
  pause_epoch = 2;
  pause_started_at = some 5;
}

file_stem-transcript : file_stem (codes "/t/c1.jsonl") ≡ some (codes "c1")
unfolding file_stem split filter find_text text_beq
file_stem-transcript = refl

abbrev files : Files
files = record {
  disk = disk;
  from_str = two_triggers_of;
  user_forks_root = codes "/home/.autofork/forks";
}

abbrev config : Config
config = default_config

abbrev learner : SelectedFork
learner = record {
  name = codes "learner";
  path = codes "/p/.autofork/forks/learner.md";
  trigger = codes "idle";
  overlap = false;
  after = [];
  tags = [];
  latch_key = some (codes "idle-pause:2");
}

abbrev fresh : Daemon
fresh = record {
  store = empty;
  waits = λ s. false;
  wake_issued_at = λ s. none;
  pending_close = λ s. none;
  close_gen = 1;
  last_busy = 0;
  parked = λ s. 0;
}

-- The session in its next pause, and the same fork, due for its idle trigger there.
abbrev resumed : SessionRow
resumed = record session { pause_epoch = 3 }

abbrev learner_again : SelectedFork
learner_again = record learner { latch_key = some (codes "idle-pause:3") }

-- The same fork, due for its other trigger.
abbrev grown : SelectedFork
grown = record learner {
  trigger = codes "context_tokens:10";
  latch_key = some (codes "context_tokens:10");
}

abbrev queued : ℕ → Store → Store
queued t s =
    (queue_fork (codes "s1") (codes "learner") (codes "/p/.autofork/forks/learner.md") t s).0

abbrev woken : Store
woken = (build_wake session (learner ∷ []) 10 10 (record fresh { store = queued 9 empty })).0.store

-- The selection, once the disk was searched.
selected :
    (pause_epoch : ℕ) (moments : List ForkMoment) (t_roster t : ℕ) (s : Store)
    → let in_pause = record session { pause_epoch = pause_epoch } in
      select_forks files in_pause config moments t_roster t s ≡ (
        queued t_roster s,
        filter_map
            (select_entry files in_pause config moments t (queued t_roster s))
            (roster (codes "s1") (queued t_roster s)),
      )
unfolding select_forks refresh_roster visible_forks queue_all
selected pause_epoch moments t_roster t s =
    let in_pause = record session { pause_epoch = pause_epoch } in
    ap
      (λ found.
        let s' = queue_all (codes "s1") t_roster (Found.entries found) s in
        (s', filter_map (select_entry files in_pause config moments t s') (roster (codes "s1") s')))
      discover_forks-learner

select_forks-due :
    select_forks files session config (idle 600 ∷ []) 9 9 empty ≡ (queued 9 empty, learner ∷ [])
unfolding select_entry select_def select_matched as_fork queue_fork roster insert_or_ignore any
    filter sort_by filter_map find text_beq match_moments hits tags_allowed fork_throttled
    tag_throttled latch_taken latch_key_for label to_string is_latched count_where build_wake issue
    issue_one add_issued stamp latch record_issued_run touch_fork_ran update_where try_latch_fire
    note_wake_issued preds_of resolve_deps break_cycles first_undone runnable_nodes peel pass
    requested all parse_fork_file split_frontmatter strip_prefix parse_raw is_marked define_fork
    parse_run_on_entry parse_token_count
select_forks-due = selected 2 (idle 600 ∷ []) 9 9 empty ∙ refl

select_forks-again : (select_forks files session config (idle 600 ∷ []) 11 11 woken).1 ≡ []
unfolding select_entry select_def select_matched as_fork queue_fork roster insert_or_ignore any
    filter sort_by filter_map find text_beq match_moments hits tags_allowed fork_throttled
    tag_throttled latch_taken latch_key_for label to_string is_latched count_where build_wake issue
    issue_one add_issued stamp latch record_issued_run touch_fork_ran update_where try_latch_fire
    note_wake_issued preds_of resolve_deps break_cycles first_undone runnable_nodes peel pass
    requested all parse_fork_file split_frontmatter strip_prefix parse_raw is_marked define_fork
    parse_run_on_entry parse_token_count
select_forks-again = ap (λ p. p.1) (selected 2 (idle 600 ∷ []) 11 11 woken) ∙ refl

select_forks-grown :
    (select_forks files session config (context 20 none ∷ []) 11 11 woken).1 ≡ grown ∷ []
unfolding select_entry select_def select_matched as_fork queue_fork roster insert_or_ignore any
    filter sort_by filter_map find text_beq match_moments hits tags_allowed fork_throttled
    tag_throttled latch_taken latch_key_for label to_string is_latched count_where build_wake issue
    issue_one add_issued stamp latch record_issued_run touch_fork_ran update_where try_latch_fire
    note_wake_issued preds_of resolve_deps break_cycles first_undone runnable_nodes peel pass
    requested all parse_fork_file split_frontmatter strip_prefix parse_raw is_marked define_fork
    parse_run_on_entry parse_token_count
select_forks-grown = ap (λ p. p.1) (selected 2 (context 20 none ∷ []) 11 11 woken) ∙ refl

abbrev between : List Statement
between = bumps (codes "s1") ∷ []

select_forks-resumed :
    (select_forks files resumed config (idle 600 ∷ []) 11 11 (run between woken)).1
    ≡ learner_again ∷ []
unfolding select_entry select_def select_matched as_fork queue_fork roster insert_or_ignore any
    filter sort_by filter_map find text_beq match_moments hits tags_allowed fork_throttled
    tag_throttled latch_taken latch_key_for label to_string is_latched count_where build_wake issue
    issue_one add_issued stamp latch record_issued_run touch_fork_ran update_where try_latch_fire
    note_wake_issued preds_of resolve_deps break_cycles first_undone runnable_nodes peel pass
    requested all parse_fork_file split_frontmatter strip_prefix parse_raw is_marked define_fork
    parse_run_on_entry parse_token_count run execute bump_pause_epoch
select_forks-resumed = ap (λ p. p.1) (selected 3 (idle 600 ∷ []) 11 11 (run between woken)) ∙ refl

select_and_wake-woken :
    (select_and_wake files session config (idle 600 ∷ []) 9 9 10 10 fresh).store ≡ woken
select_and_wake-woken =
    ap (λ p. (build_wake session p.1 10 10 (record fresh { store = p.0 })).0.store) select_forks-due

learner-due : In learner (select_forks files session config (idle 600 ∷ []) 9 9 empty).1
learner-due = subst (λ p. In learner p.1) (sym select_forks-due) (inl refl)

learner-resumed :
    In learner_again
      (select_forks files resumed config (idle 600 ∷ []) 11 11 (
        run between (select_and_wake files session config (idle 600 ∷ []) 9 9 10 10 fresh).store)).1
learner-resumed =
    subst
      (λ s.
        In learner_again
          (select_forks files resumed config (idle 600 ∷ []) 11 11 (run between s)).1)
      (sym select_and_wake-woken) (subst (In learner_again) (sym select_forks-resumed) (inl refl))

select_forks-build_wake_example :
    (codes "idle" ≡ codes "idle" → IsIdle (codes "idle"))
    × (IsIdle (codes "idle") → IsIdle (codes "idle") → resumed.pause_epoch ≢ session.pause_epoch)
select_forks-build_wake_example =
    select_forks-build_wake files files session resumed config config (idle 600 ∷ [])
      (idle 600 ∷ []) 9 9 10 10 11 11 fresh between learner learner_again refl (tt, tt) learner-due
      learner-resumed refl

latch_key_for_iff_example :
    latch_key_for (ForkRunOn.idle none) 2 ≡ latch_key_for (ForkRunOn.idle (some 600)) 2 ↔ (
      (IsIdle (label (ForkRunOn.idle none))
        × IsIdle (label (ForkRunOn.idle (some 600)))
        × (◌≡◌ {A = ℕ} 2 2))
      ⊎ (¬ IsIdle (label (ForkRunOn.idle none))
          × (ForkRunOn.idle none ≡ ForkRunOn.idle (some 600))))
unfolding is_supported
latch_key_for_iff_example =
    latch_key_for_iff (ForkRunOn.idle none) (ForkRunOn.idle (some 600)) 2 2 refl refl tt
      (omega arith) (omega arith) (omega arith)

build_wake-looks_like_continuation_example :
    ((build_wake session (learner ∷ []) 10 10 fresh).1 ≡ none) × (learner ∷ [] ≡ [])
    ⊎ ((text : Text) × ((build_wake session (learner ∷ []) 10 10 fresh).1 ≡ some text)
        × (looks_like_continuation text ≡ true)
        × (learner ∷ [] ≢ []))
build_wake-looks_like_continuation_example =
    build_wake-looks_like_continuation session (learner ∷ []) 10 10 fresh

-- A dependent is held, and its predecessor completes.
abbrev history : List Statement
history =
    holds (codes "s1") (codes "deploy") (codes "/p/deploy.md") (codes "idle") false
      (codes "learner" ∷ []) 10
    ∷ spawns (codes "s1") (codes "t1") (some (codes "learner")) 11
    ∷ ends (codes "s1") (some (codes "t1")) none (codes "completed") 12
    ∷ []

abbrev waiting : Daemon
waiting = record {
  store = run history empty;
  waits = λ s. false;
  wake_issued_at = λ s. none;
  pending_close = λ s. none;
  close_gen = 1;
  last_busy = 0;
  parked = λ s. 0;
}

release_due_example :
    ((x : PendingDep)
      → In x (list_pending_deps (codes "s1") (release_due session 13 waiting).0.store) ↔ (
          In x (list_pending_deps (codes "s1") waiting.store)
          × ¬ IsReady (codes "s1") waiting.store x))
    × Outcome (codes "s1") waiting.store (release_due session 13 waiting).1
release_due_example = release_due_lem session 13 waiting (run-IsKeyed history)
