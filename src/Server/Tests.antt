-- ===== src/Server/Tests.antt =====
-- A connection with a poll of one session.
use forksan.Prelude.{
  wrapping_add, leb_i64, contains, join, split, starts_with, find, text_beq, trim, any, filter,
  sort_by, ℕ, ◌≡◌, refl, true, List, [], ◌∷◌, ◌++◌, Option, none, some, Text, codes, text_eq, ◌==◌,
  inl, In, map, if◌then◌else◌, Bool-cases, inr,
}
use forksan.Store.{
  list_pending_deps, set_last_activity, set_pause_started_at_if_unset, get_session, split_tags,
  SessionRow, empty, upsert_session, list_open_sessions,
}
use forksan.Planner.{Daemon}
use forksan.Events.{touch_busy, clear_pending_close, ingest_path, ingest_transcript, session_event}
use forksan.Waits.{
  cfg_for, poll_of, moments_of, due_now, check_due, register_wait, park, after_release, wait_for,
  handle_stop_wait, parking, cancelled,
}
use forksan.Waits.Tests.{machine, fresh, stopped, clock, session, poll}
use forksan.Protocol.{Request, Response, hello, stop_wait}
use forksan.Server.{dispatch, Service, Readout, prune_sessions}
use forksan.Server.Connection.{step, Connection, reading, polling, Input, line, moved, serve}
use forksan.Server.Balance.{IsBalanced, serve-IsBalanced, polls_among}
use forksan.Server.Prune.{prune_sessions-polling}
use forksan.Server.Frames.{talk, talk-in_order, awaited, AllOpen}
use forksan.Sql.{update_where, upsert}
use forksan.Planner.Issue.{releasable, release_due}
use forksan.Polls.{elapsed_moments}
use forksan.Moments.{idle_deadlines}
use forksan.Planner.Select.{visible_forks}
use forksan.Discovery.{
  push_fork, insert_parse, insert_entry, insert_bare, scan_item, scan_items, scan_names,
  scan_forks_dir, fork_roots, scan_roots, or_nothing, discover_forks,
}
use forksan.FileSystem.{join_path, ancestors, canonical}
use forksan.Frontmatter.File.{define_fork, is_marked, parse_raw, split_frontmatter, parse_fork_file}
use forksan.Frontmatter.Parse.{parse_token_count, parse_run_on_entry}
use forksan.Config.{load_layer, apply_loaded, apply_project, load_config_at}

abbrev frame : ℕ → ℕ → Option Request
frame proto id = some (record { proto = proto; id = id; body = hello (codes "0.1.0") })

abbrev frames : Text → Option Request
frames text =
    if text == codes "hello"
    then frame 1 5
    else if text == codes "old"
    then frame 2 6
    else if text == codes "stop"
    then some (record { proto = 1; id = 8; body = stop_wait stopped })
    else none

abbrev service : Service
service = record {
  machine = machine;
  version = codes "0.1.0";
  pid = 7;
  from_str = frames;
  error = λ text. codes "expected value";
}

abbrev readout : Readout
readout = record {
  busy = 100;
  now = 10_000;
  handled = record { busy = 100; now = 100; ingested = 100 };
  started = clock;
}

abbrev said : Text → Input × (Daemon → Daemon)
said text = (line text readout true, λ d. d)

abbrev inputs : List (Input × (Daemon → Daemon))
inputs =
    said (codes "hello")
    ∷ said (codes " ")
    ∷ said (codes "old")
    ∷ said (codes "garbage")
    ∷ said (codes "stop")
    ∷ said (codes "stray")
    ∷ (moved cancelled true, λ d. d)
    ∷ []

-- The blank line and the one that comes while the poll waits have no answer.
talk-in_order_example :
    map Response.id (talk service inputs reading fresh).1
      ++ awaited (talk service inputs reading fresh).0
    ≡ (talk service inputs reading fresh).2
talk-in_order_example =
    talk-in_order service inputs fresh
      (unfold AllOpen in (refl, (refl, (refl, (refl, (refl, (refl, (refl, tt))))))))

serve-IsBalanced_example :
    IsBalanced
      (serve service 1 (line (codes "stop") readout true) (reading ∷ reading ∷ []) fresh).1
      (serve service 1 (line (codes "stop") readout true) (reading ∷ reading ∷ []) fresh).0
serve-IsBalanced_example =
    serve-IsBalanced service 1 (line (codes "stop") readout true) (reading ∷ reading ∷ []) fresh
      (λ s. unfold polls_among in refl)

abbrev polled : Daemon
polled = record fresh {
  store = upsert_session (session_event stopped) 100 empty;
  parked = λ s. if s == codes "s1" then 1 else 0;
}

abbrev polls : List Connection
polls = polling 8 poll parking ∷ []

abbrev row : SessionRow
row = record session { pause_started_at = none }

polls-IsBalanced : IsBalanced polls polled
unfolding polls_among
polls-IsBalanced s = elim (Bool-cases (s == codes "s1")) [ inl e ↦ rw e refl | inr n ↦ rw n refl ]

row-listed : In row (list_open_sessions polled.store)
unfolding list_open_sessions upsert_session session_event sort_by filter upsert any split_tags
row-listed = inl refl

prune_sessions-polling_example :
    In row (list_open_sessions (prune_sessions service 10_000 polled).0.store)
prune_sessions-polling_example =
    prune_sessions-polling service 10_000 polls polled 8 poll parking row polls-IsBalanced
      (inl refl) refl row-listed

-- The ids that this talk asks for.
ids_asked : (talk service inputs reading fresh).2 ≡ 5 ∷ 6 ∷ 0 ∷ 8 ∷ []
unfolding talk trim text_beq step dispatch handle_stop_wait wait_for get_session find
    ingest_transcript ingest_path set_pause_started_at_if_unset update_where set_last_activity
    upsert_session upsert any clear_pending_close touch_busy session_event after_release release_due
    releasable filter list_pending_deps sort_by park register_wait check_due due_now moments_of
    elapsed_moments poll_of idle_deadlines visible_forks discover_forks or_nothing scan_roots
    fork_roots canonical ancestors join_path starts_with scan_forks_dir scan_names scan_items
    scan_item split join insert_bare insert_entry insert_parse parse_fork_file split_frontmatter
    parse_raw is_marked push_fork define_fork parse_run_on_entry parse_token_count cfg_for
    load_config_at apply_project apply_loaded load_layer contains leb_i64 wrapping_add
ids_asked = refl
