-- ===== src/Hook.antt =====
-- crates/autofork/src/hook.rs: what a hook sends to the daemon, and how it ends.
pub mod Sniff
pub mod Wakes
pub mod Exit
pub mod Tests
use forksan.Prelude.{
  ℕ, Bool, true, false, ◌||◌, List, [], ◌∷◌, ◌++◌, Option, none, some, Text, codes, split, is_empty,
  contains_text, if◌then◌else◌,
}
use forksan.FileSystem.{FileSystem}
use forksan.Config.Paths.{Env, autofork_home_from_env}
use forksan.Discovery.{project_root}
use forksan.Frontmatter.Parse.{push_pieces}
use forksan.Notification.{TaskNotification, parse_task_notification}
use forksan.Wake.{wake_marker}
use forksan.Events.{Event, EventKind, session_start, prompt_submit, stop, session_end}
use forksan.Protocol.{RequestBody, event, stop_wait, ResponseBody, wake_up}
use forksan.Client.{Client, Wire, Reply, ok, request, ensure_current_version}

pub data HookKind : Type 0 where
  start_hook prompt_hook stop_wait_hook end_hook : HookKind

-- The `source` of a session's start is left out: the daemon does not read it.
pub record HookInput : Type 0 where
  pub session_id : Text
  pub transcript_path : Option Text
  pub cwd : Option Text
  pub model : Option Text
  pub prompt : Option Text

-- What surrounds a hook: its environment and standard input, serde_json, the disk, the version of this
-- command line, and the connections that it gets: without a start of the daemon, with one, and after
-- the daemon was retired.
pub record Host : Type 0 where
  pub env : Env
  pub stdin : Option Text
  pub from_str : Text → Option HookInput
  pub current_dir : Option Text
  pub disk : FileSystem
  pub version : Text
  pub connect : Option (Wire × Client)
  pub connect_or_spawn : Option (Wire × Client)
  pub respawned : Option (Wire × Client)

unfoldable pub or_none : List Text → Option (List Text)
or_none [] = none
or_none (t ∷ ts) = some (t ∷ ts)

tags_of : Option Text → Option (List Text)
tags_of none = none
tags_of (some raw) = or_none (push_pieces (split b',' raw) [])

unfoldable pub tags_from_env : Env → Text → Option (List Text)
unfolding tags_of
tags_from_env env var = tags_of (env var)

-- The closure `event`.
unfoldable pub hook_event : Host → HookInput → Text → EventKind → Event
hook_event host input cwd kind = record {
  event = kind;
  session_id = input.session_id;
  transcript_path = input.transcript_path;
  cwd = cwd;
  project_root = project_root host.disk cwd;
  model = input.model;
  enable_tags = tags_from_env host.env (codes "AUTOFORK_ENABLE_TAGS");
  disable_tags = tags_from_env host.env (codes "AUTOFORK_DISABLE_TAGS");
  waking = none;
  notif_tool_use_id = none;
  notif_task_id = none;
  notif_status = none;
}

notified : Option TaskNotification → Event → Event
notified none ev = record ev { waking = some true }
notified (some n) ev = record ev {
  waking = some false;
  notif_tool_use_id = n.tool_use_id;
  notif_task_id = n.task_id;
  notif_status = n.status;
}

-- The prompt tells a user's activity from a continuation.
unfoldable pub sniff : Option Text → Event → Event
unfolding notified
sniff none ev = ev
sniff (some p) ev =
    if contains_text p wake_marker
    then record ev { waking = some false }
    else notified (parse_task_notification p) ev

-- How a hook ends: its exit code, what it prints to stderr, and whether it started a daemon on its way out.
pub record Ending : Type 0 where
  pub exit_code : ℕ
  pub stderr : Text
  pub spawned : Bool

-- Every failure ends like this too.
abbrev pub silent : Ending
silent = record { exit_code = 0; stderr = []; spawned = false }

-- What it sent, if anything, and how it ended.
abbrev pub Run : Type 0
Run = Option RequestBody × Ending

sent_to : Option (Wire × Client) → RequestBody → Run
sent_to none body = (none, silent)
sent_to (some c) body = (some body, silent)

prompt_sent : Option (Wire × Client) → RequestBody → Run
prompt_sent none body = (none, record silent { spawned = true })
prompt_sent (some c) body = (some body, silent)

woken : Reply → Ending
woken (ok (wake_up payload)) = record {
  exit_code = 2;
  stderr = payload ++ (b'\n' ∷ []);
  spawned = false;
}
woken reply = silent

waited_on : Option (Wire × Client) → RequestBody → Run
unfolding woken
waited_on none body = (none, silent)
waited_on (some (wire, client)) body = (some body, woken (request wire body client).1)

-- The handshake, where a connection was made.
pub current : Host → Option (Wire × Client) → Option (Wire × Client)
current host none = none
current host (some (wire, client)) = ensure_current_version host.version host.respawned wire client

unfoldable pub run_kind : Host → HookKind → HookInput → Text → Run
unfolding sent_to prompt_sent waited_on current
run_kind host start_hook input cwd =
    sent_to (current host host.connect_or_spawn) (event (hook_event host input cwd session_start))
run_kind host prompt_hook input cwd =
    prompt_sent host.connect (event (sniff input.prompt (hook_event host input cwd prompt_submit)))
run_kind host stop_wait_hook input cwd =
    waited_on (current host host.connect_or_spawn) (stop_wait (hook_event host input cwd stop))
run_kind host end_hook input cwd =
    sent_to host.connect_or_spawn (event (hook_event host input cwd session_end))

pub cwd_or : Option Text → Option Text → Option Text
cwd_or none other = other
cwd_or (some cwd) other = some cwd

run_in : Host → HookKind → HookInput → Option Text → Option Text → Run
unfolding run_kind
run_in host kind input none cwd = (none, silent)
run_in host kind input (some base) none = (none, silent)
run_in host kind input (some base) (some cwd) = run_kind host kind input cwd

run_input : Host → HookKind → Option HookInput → Run
unfolding run_in cwd_or
run_input host kind none = (none, silent)
run_input host kind (some input) =
    run_in host kind input (autofork_home_from_env host.env) (cwd_or input.cwd host.current_dir)

run_stdin : Host → HookKind → Option Text → Run
unfolding run_input
run_stdin host kind none = (none, silent)
run_stdin host kind (some raw) = run_input host kind (host.from_str raw)

abbrev is_set : Option Text → Bool
is_set none = false
is_set (some value) = true

-- The recursion guard comes first.
unfoldable pub run_hook_inner : Host → HookKind → Run
unfolding run_stdin
run_hook_inner host kind =
    if is_set (host.env (codes "AUTOFORK_FORK")) || is_set (host.env (codes "AUTOFORK_SESSION_ID"))
    then (none, silent)
    else run_stdin host kind host.stdin
