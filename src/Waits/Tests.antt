-- ===== src/Waits/Tests.antt =====
-- A poll of a session with one fork, idle after ten minutes.
use forksan.Prelude.{
  wrapping_add, leb_i64, contains, join, split, starts_with, sort_by, filter, text_beq, any, find,
  ℕ, ◌≡◌, refl, true, false, [], ◌∷◌, none, some, codes, arith,
}
use forksan.Store.{
  is_latched, queue_fork, roster, split_tags, list_pending_deps, upsert_session, set_last_activity,
  set_pause_started_at_if_unset, get_session, SessionRow, empty, opened,
}
use forksan.Config.{load_layer, apply_loaded, apply_project, load_config_at, default_config}
use forksan.Discovery.Tests.{disk, two_triggers_of}
use forksan.Planner.{latch_key_for, Daemon}
use forksan.Events.{
  session_event, touch_busy, clear_pending_close, ingest_path, ingest_transcript, Event, stop,
}
use forksan.Events.Session.{pause_of, or_first}
use forksan.Waits.{
  debounce, select_now, on_elapsed, sleep_next, cfg_for, poll_of, moments_of, due_now, check_due,
  register_wait, after_release, wait_for, Machine, Poll, asleep, debouncing, parking, Wait, pending,
  Readings, StartClock, elapsed, move, park, handle_stop_wait,
}
use forksan.Waits.Refines.{waiting, view, Promise, move-Promise}
use forksan.Waits.Ends.{run_out, is_settled, handle_stop_wait-settles}
use forksan.Waits.Baseline.{Still, started_or, handle_stop_wait-baseline}
use forksan.Sql.{count_where, insert_or_ignore, upsert, update_where}
use forksan.Planner.Issue.{releasable, release_due}
use forksan.Polls.{elapsed_moments}
use forksan.Moments.{hits, match_moments, resolve_context_window, idle_deadlines}
use forksan.Planner.Select.{
  latch_taken, tag_throttled, fork_throttled, select_matched, select_def, select_entry,
  refresh_roster, select_forks, visible_forks,
}
use forksan.Discovery.{
  push_fork, insert_parse, insert_entry, insert_bare, scan_item, scan_items, scan_names,
  scan_forks_dir, fork_roots, scan_roots, or_nothing, discover_forks,
}
use forksan.FileSystem.{join_path, ancestors, canonical}
use forksan.Frontmatter.File.{define_fork, is_marked, parse_raw, split_frontmatter, parse_fork_file}
use forksan.Frontmatter.Parse.{parse_token_count, parse_run_on_entry}
use mathlib.Core.List.{filter_map}
use forksan.Tags.{tags_allowed}

abbrev pub machine : Machine
machine = record {
  files = record {
    disk = disk;
    from_str = two_triggers_of;
    user_forks_root = codes "/home/.autofork/forks";
  };
  outside = record { from_json = λ text. none; read_bytes = λ path. none; wake_grace_secs = 20 };
  toml = record { from_str = λ text. none; error = λ text. [] };
  user_config = codes "/home/.autofork/config.toml";
}

abbrev pub fresh : Daemon
fresh = record {
  store = empty;
  waits = λ s. false;
  wake_issued_at = λ s. none;
  pending_close = λ s. none;
  close_gen = 0;
  last_busy = 0;
  parked = λ s. 0;
}

abbrev pub stopped : Event
stopped = record {
  event = stop;
  session_id = codes "s1";
  transcript_path = none;
  cwd = codes "/p";
  project_root = codes "/p";
  model = none;
  enable_tags = none;
  disable_tags = none;
  waking = none;
  notif_tool_use_id = none;
  notif_task_id = none;
  notif_status = none;
}

abbrev pub at : ℕ → Readings
at t = record {
  check = record { moments_at = t; roster_at = t; selected_at = t };
  slept_at = t;
  issue = record { moments_at = t; roster_at = t; selected_at = t };
  stamped_at = t;
  noted_at = t;
}

abbrev pub clock : StartClock
clock = record { busy = 100; now = 100; ingested = 100; released_at = 100; first = at 100 }

abbrev pub session : SessionRow
session = record {
  session_id = codes "s1";
  project_root = codes "/p";
  cwd = codes "/p";
  transcript_path = none;
  status = opened;
  last_activity = 100;
  transcript_offset = 0;
  prompt_tokens = none;
  model = none;
  created_at = 100;
  enable_tags = none;
  disable_tags = none;
  pause_epoch = 0;
  pause_started_at = some 100;
}

abbrev pub poll : Poll
poll = record {
  session = session;
  cfg = default_config;
  prompt_tokens = none;
  max_tokens = 200_000;
  baseline = 100;
  deadlines = 600 ∷ [];
}

abbrev waiting_poll : Wait
waiting_poll = pending poll (asleep 600 [])

-- The Stop begins the wait for the deadline.
handle_stop_wait-asleep : (handle_stop_wait machine stopped clock fresh).1 ≡ waiting_poll
unfolding handle_stop_wait wait_for get_session find ingest_transcript ingest_path
    set_pause_started_at_if_unset update_where set_last_activity upsert_session upsert any
    clear_pending_close touch_busy text_beq session_event after_release release_due releasable
    filter list_pending_deps sort_by park register_wait check_due due_now moments_of elapsed_moments
    poll_of idle_deadlines visible_forks discover_forks or_nothing scan_roots fork_roots canonical
    ancestors join_path starts_with scan_forks_dir scan_names scan_items scan_item split join
    insert_bare insert_entry insert_parse parse_fork_file split_frontmatter parse_raw is_marked
    push_fork define_fork parse_run_on_entry parse_token_count cfg_for load_config_at apply_project
    apply_loaded load_layer contains leb_i64 wrapping_add split_tags resolve_context_window
    sleep_next
handle_stop_wait-asleep = refl

-- At the deadline the fork is due, and the wake is debounced; a reading before it finds nothing.
abbrev held : Daemon
held = record fresh { parked = λ s. 1 }

move-due : (move machine (elapsed (at 700)) waiting_poll held).1 ≡ pending poll (debouncing 5)
unfolding move on_elapsed check_due due_now moments_of elapsed_moments leb_i64 wrapping_add
    select_now select_forks filter_map roster sort_by filter refresh_roster visible_forks
    discover_forks or_nothing scan_roots fork_roots text_beq canonical ancestors join_path
    starts_with scan_forks_dir scan_names scan_items scan_item split join insert_bare insert_entry
    insert_parse parse_fork_file split_frontmatter parse_raw is_marked push_fork find queue_fork
    insert_or_ignore any select_entry select_def tags_allowed match_moments define_fork
    parse_run_on_entry hits select_matched fork_throttled tag_throttled latch_taken latch_key_for
    is_latched count_where debounce
move-due = refl

move-early : (move machine (elapsed (at 699)) waiting_poll held).1 ≡ pending poll parking
unfolding move on_elapsed check_due due_now moments_of elapsed_moments leb_i64 wrapping_add
    sleep_next
move-early = refl

move-Promise_example :
    Promise session waiting empty
      (view (move machine (elapsed (at 705)) (pending poll (debouncing 5)) held).1)
      (move machine (elapsed (at 705)) (pending poll (debouncing 5)) held).0.store
move-Promise_example = move-Promise machine (elapsed (at 705)) poll (debouncing 5) held

handle_stop_wait-settles_example :
    is_settled
      (run_out machine
        ((at 700, λ d. d) ∷ (at 705, λ d. d) ∷ [])
        (handle_stop_wait machine stopped clock fresh)).1
    ≡ true
handle_stop_wait-settles_example =
    handle_stop_wait-settles machine stopped clock fresh ((at 700, λ d. d) ∷ (at 705, λ d. d) ∷ [])
      (rw handle_stop_wait-asleep (omega arith))

handle_stop_wait-baseline_example :
    Still
      (λ p. p.baseline ≡ started_or 100 (or_first (pause_of (codes "s1") empty)))
      (run_out machine ((at 700, λ d. d) ∷ []) (handle_stop_wait machine stopped clock fresh)).1
handle_stop_wait-baseline_example =
    handle_stop_wait-baseline machine stopped clock fresh ((at 700, λ d. d) ∷ [])
