-- ===== src/Server.antt =====
-- crates/autofork-daemon/src/server.rs: connections, the requests that they carry, and their answers.
pub mod Connection
pub mod Counts
pub mod Balance
pub mod Prune
pub mod Frames
pub mod Tests
use forksan.Prelude.{
  ℕ, zero, suc, Bool, true, false, not, ◌&&◌, List, [], ◌∷◌, ◌++◌, map, filter, Option, some, none,
  Text, codes, text_eq, nat_eq, ◌==◌, trim, is_empty, to_string, if◌then◌else◌,
}
use forksan.Frontmatter.{label}
use forksan.Discovery.{ForkEntry, discover_forks}
use forksan.Store.{
  Store, SessionRow, SessionStatus, opened, closed, RunRecord, list_open_sessions, list_runs,
}
use forksan.Planner.{Daemon}
use forksan.Events.{Event, Clock, touch_busy, handle_event}
use forksan.Reaper.{is_stale, prune}
use forksan.Waits.{
  Machine, Wait, pending, done, Answer, waited, wake, dropped, StartClock, Move, lost, cfg_for,
  is_parked, move, handle_stop_wait,
}
use forksan.Protocol.{
  proto_version, RequestBody, hello, event, stop_wait, status_request, list_forks, prune_request,
  shutdown, Request, SessionInfo, RunInfo, ForkInfo, ErrorCode, proto_mismatch, bad_request,
  ResponseBody, ack, hello_info, wake_up, stopped_waiting, status_info, fork_list, pruned, failed,
  Response,
}

-- What surrounds the server: the daemon's machine and version, its process, and serde_json::from_str with
-- the message of its error.
pub record Service : Type 0 where
  pub machine : Machine
  pub version : Text
  pub pid : ℕ
  pub from_str : Text → Option Request
  pub error : Text → Text

-- The readings of the clock that one request may take.
pub record Readout : Type 0 where
  pub busy : ℕ
  pub now : ℕ
  pub handled : Clock
  pub started : StartClock

unfoldable pub stale_now : Service → ℕ → Daemon → SessionRow → Bool
stale_now service now d =
    is_stale (λ sid. is_parked sid d)
      (λ root. (cfg_for service.machine (some root)).default_idle_deadline_secs) now

status_text : SessionStatus → Text
status_text opened = codes "open"
status_text closed = codes "closed"

session_info : Bool → SessionRow → SessionInfo
unfolding status_text
session_info stale s = record {
  session_id = s.session_id;
  project_root = s.project_root;
  status = status_text s.status;
  last_activity = s.last_activity;
  prompt_tokens = s.prompt_tokens;
  stale = stale;
}

run_info : RunRecord → RunInfo
run_info r = record {
  fork = r.fork_name;
  trigger = r.trigger_label;
  session_id = r.session_id;
  state = r.state;
  started_at = r.started_at;
}

unfoldable pub status : Service → ℕ → Daemon → ResponseBody
unfolding session_info run_info
status service now d = status_info (record {
  version = service.version;
  daemon_proto = proto_version;
  pid = service.pid;
  sessions = map (λ s. session_info (stale_now service now d s) s) (list_open_sessions d.store);
  recent_runs = map run_info (list_runs (codes "issued" ∷ []) 20 d.store);
})

fork_info : List Text → ForkEntry → ForkInfo
fork_info warnings e = record {
  name = e.name;
  path = e.path;
  description = e.parsed.def.description;
  triggers = map label e.parsed.def.run_on;
  throttle_secs = e.parsed.def.throttle_secs;
  after = e.parsed.def.after;
  overlap = e.parsed.def.overlap;
  tags = e.parsed.def.tags;
  warnings = e.parsed.warnings ++ warnings;
}

unfoldable pub fork_items : Service → Text → ResponseBody
unfolding fork_info
fork_items service cwd =
    let files = service.machine.files in
    let found = discover_forks files.disk files.from_str cwd (some files.user_forks_root) in
    fork_list (map (fork_info found.warnings) found.entries)

-- The answer lists what was closed.
unfoldable pub prune_sessions : Service → ℕ → Daemon → Daemon × ResponseBody
unfolding session_info
prune_sessions service now d = (
  record d {
    store =
        (prune (λ sid. is_parked sid d)
          (λ root. (cfg_for service.machine (some root)).default_idle_deadline_secs) now d.store).0;
  },
  pruned (
      map (λ s. session_info true (record s { status = closed }))
        (filter (stale_now service now d) (list_open_sessions d.store))),
)

-- A request is answered, or its poll waits.
pub data Outcome : Type 0 where
  answered : ResponseBody → Outcome
  waits : Wait → Outcome

reply : Daemon × ResponseBody → Daemon × Outcome
reply (d, body) = (d, answered body)

parked : Daemon × Wait → Daemon × Outcome
parked (d, w) = (d, waits w)

-- A shutdown is answered before it takes place; it ends each poll by its move.
unfoldable pub dispatch : Service → Readout → RequestBody → Daemon → Daemon × Outcome
unfolding reply parked
dispatch service r (hello version) d = (touch_busy r.busy d, answered (hello_info service.version))
dispatch service r (event ev) d =
    (handle_event service.machine.outside ev r.handled (touch_busy r.busy d), answered ack)
dispatch service r (stop_wait ev) d =
    parked (handle_stop_wait service.machine ev r.started (touch_busy r.busy d))
dispatch service r status_request d =
    (touch_busy r.busy d, answered (status service r.now (touch_busy r.busy d)))
dispatch service r (list_forks project_root cwd) d =
    (touch_busy r.busy d, answered (fork_items service cwd))
dispatch service r prune_request d = reply (prune_sessions service r.now (touch_busy r.busy d))
dispatch service r (shutdown drain) d = (touch_busy r.busy d, answered ack)
