-- ===== src/Lib.antt =====
-- forksan ("autofork"): forks that are due in an idle or full session are spawned as background subagents.
--
-- The program has three crates. crates/autofork-core holds the data and the rules, crates/autofork-daemon
-- the process that keeps the state of all sessions, and crates/autofork the command line and the hooks that
-- talk to it. A hook reports an event of a session; the daemon updates the session's row, and a Stop hook
-- parks until a fork is due. Then the planner selects the due forks, resolves their `after` dependencies,
-- stamps throttles and latches and answers with a wake payload, which the session reads as its next prompt.
-- The transcript shows the forks that were spawned and their completions, which release held dependents.
--
-- Which file models which part:
--   FileSystem    what the code asks of a file system, and the path operations of the standard library
--   Json          the shape of a JSON value, as serde_json gives it
--   Config        crates/autofork-core/src/config.rs: apply_layer, load_config_at, and the Paths with socket
--   Discovery     crates/autofork-core/src/discovery.rs: fork_roots, scan_forks_dir, discover_forks, and
--                 project_root of crates/autofork-core/src/project.rs
--   Yaml          the shape of a YAML value, as serde_yaml gives it
--   Duration      crates/autofork-core/src/duration.rs: parse_duration_yaml, parse_duration_str
--   Tags          crates/autofork-core/src/tags.rs: tags_allowed
--   Frontmatter   crates/autofork-core/src/frontmatter.rs: ForkDef, ForkRunOn, label, is_supported;
--                 Parse has parse_run_on_entry, parse_after and parse_tags, File has split_frontmatter and
--                 parse_fork_file
--   Moments       crates/autofork-core/src/moments.rs: resolve_context_window, match_moments, idle_deadlines
--   Schedule      crates/autofork-core/src/schedule.rs: resolve_deps (requested edges, passes, cuts), roots
--   Sql           the SQL statements that the store issues, over a table as the list of its rows
--   Store         crates/autofork-core/src/store.rs: Tables the rows, Sessions, Roster, Runs, Spawns and
--                 Pending one function per statement; the other children hold theorems
--   Notification  crates/autofork-core/src/notification.rs: parse_task_notification, is_terminal_status
--   Wake          crates/autofork-core/src/wake.rs: the payloads and looks_like_continuation
--   Transcript    crates/autofork-daemon/src/transcript.rs: fork_name_from_prompt and agent_id_from_result; Scan
--                 has scan_assistant and scan_user, Read has read_delta
--   Planner       crates/autofork-daemon/src/planner.rs: Select has refresh_roster and select_forks, Issue
--                 has build_wake and release_due; Daemon is the state in
--                 crates/autofork-daemon/src/daemon.rs
--   Events        crates/autofork-daemon/src/daemon.rs: handle_event and ingest_transcript, over the Event of
--                 crates/autofork-core/src/protocol.rs and a transcript reader that may fail
--   Polls         crates/autofork-daemon/src/daemon.rs: elapsed_moments, and on_poll_lost as steps that interleave
--                 with events
--   Waits         crates/autofork-daemon/src/daemon.rs: handle_stop_wait as a poll with its moves (a timer that
--                 elapses, a cancellation, the shutdown, a lost connection), and the count of parked polls
--   Protocol      crates/autofork-core/src/protocol.rs: the frames
--   Server        crates/autofork-daemon/src/server.rs: dispatch with status, list_forks and prune; Connection
--                 has handle_conn as the step of a connection, and serve over a list of them
--   Client        crates/autofork/src/client.rs: request, ensure_current_version, semver_lt
--   Hook          crates/autofork/src/hook.rs: run_hook_inner with the prompt sniffing and tags_from_env
--   Instances     spawn_daemon_locked of crates/autofork/src/client.rs and crates/autofork-daemon/src/main.rs as
--                 steps of racing processes over two locks and a socket
--   Commands      crates/autofork/src/commands.rs: what status, prune, forks and run print, and
--                 impostor_agent_files
--   Reaper        crates/autofork-daemon/src/sweep.rs: a round of session_reaper, and is_stale and prune of
--                 crates/autofork-daemon/src/server.rs
-- Prelude holds what all of them share: Boolean tests, lists, sorting, text, machine words, numerals,
-- splitting and searching.
--
-- How the code is read:
--   - A text and a path are lists of code points. A path that is not valid UTF-8 is not modelled.
--   - A time is a natural number of epoch seconds. u64 arithmetic wraps at 2 ^ 64 as in a release build, and
--     a cast to i64 is read by its sign bit (ltb_i64). A difference of two times is 0 where the source takes
--     its maximum with 0, and wraps where it does not.
--   - A Store is a record of tables in insertion order, and a statement a function on it; rusqlite errors,
--     which the callers ignore, are left out, and so are columns that nothing reads. Where ORDER BY leaves
--     rows tied, insertion order decides.
--   - The loops of resolve_deps run on fuel, one more than the number of nodes, which is enough: a pass that
--     changes something marks a node, and a cut frees one.
--   - A numeral is written with up to 20 digits, which is enough for a u64.
--   - An operation that reads the clock takes its reading as an argument, one for each reading.
--   - The file system, the environment, serde_yaml::from_str, serde_json::from_str and toml::from_str are
--     arguments: records of operations (FileSystem, Files, Toml, Outside) or functions. A file's contents may
--     change between two readings; within one call of discovery or of the configuration they are fixed.
--   - A path is split at its slashes where the source walks its ancestors or joins it.
--   - The scan of a forks directory takes fuel, of which ten is enough for the nesting that the source
--     allows.
--   - A statement that runs in between is one of Store.Keys.Statement, an action of another session one of
--     Polls.Action.
--   - A poll stops where the source awaits; what the daemon does in between is an arbitrary change of its
--     state, or another poll's move.
--   - Logging is left out.
--   - A connection reads one line at a time; each input says whether the answer to it could be written. The
--     JSON of the frames is serde's, so the two directions are arguments (Service, Wire).
-- Not modelled: logs and doctor among the commands except its search for agent files, the parsing of
-- arguments, the
-- polling loops of the client, and the daemon's quiet reaper. They are mostly I/O around the parts above.
pub mod Prelude
pub mod Yaml
pub mod Json
pub mod FileSystem
pub mod Config
pub mod Discovery
pub mod Duration
pub mod Tags
pub mod Frontmatter
pub mod Moments
pub mod Schedule
pub mod Sql
pub mod Store
pub mod Notification
pub mod Wake
pub mod Transcript
pub mod Planner
pub mod Events
pub mod Polls
pub mod Protocol
pub mod Client
pub mod Commands
pub mod Hook
pub mod Instances
pub mod Server
pub mod Waits
pub mod Reaper
