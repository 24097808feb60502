-- ===== src/Events.antt =====
-- crates/autofork-daemon/src/daemon.rs: what a lifecycle event does to the daemon's state.
pub mod Session
pub mod Pause
pub mod Tests
use forksan.Prelude.{
  ℕ, ◌+◌, Bool, true, false, not, ◌&&◌, ◌||◌, List, [], ◌∷◌, Option, none, some, Text, text_eq,
  ◌==◌, ltb, join, if◌then◌else◌,
}
use forksan.Notification.{TaskNotification, is_terminal_status}
use forksan.Store.{
  Store, SessionEvent, SessionRow, upsert_session, get_session, set_last_activity, bump_pause_epoch,
  clear_pending_deps, close_session, record_spawn, set_spawn_task_id, mark_spawn_terminal,
  is_fork_spawn, set_transcript_gauge, coalesce,
}
use forksan.Json.{Json}
use forksan.Transcript.Scan.{Delta}
use forksan.Transcript.Read.{read_delta}
use forksan.Planner.{Daemon}

pub data EventKind : Type 0 where
  session_start prompt_submit stop session_end : EventKind

-- The fields of `Event` that the daemon reads.
pub record Event : Type 0 where
  pub event : EventKind
  pub session_id : Text
  pub transcript_path : Option Text
  pub cwd : Text
  pub project_root : Text
  pub model : Option Text
  pub enable_tags : Option (List Text)
  pub disable_tags : Option (List Text)
  pub waking : Option Bool
  pub notif_tool_use_id : Option Text
  pub notif_task_id : Option Text
  pub notif_status : Option Text

-- What the handler takes from outside: `serde_json::from_str`, the bytes of a file if it can be opened,
-- and the grace window.
pub record Outside : Type 0 where
  pub from_json : Text → Option Json
  pub read_bytes : Text → Option (List ℕ)
  pub wake_grace_secs : ℕ

-- The readings of the clock, in the order of the calls.
pub record Clock : Type 0 where
  pub busy : ℕ
  pub now : ℕ
  pub ingested : ℕ

joined : Option (List Text) → Option Text
joined none = none
joined (some tags) = some (join (b',' ∷ []) tags)

unfoldable pub session_event : Event → SessionEvent
unfolding joined
session_event ev = record {
  session_id = ev.session_id;
  project_root = ev.project_root;
  cwd = ev.cwd;
  transcript_path = ev.transcript_path;
  model = ev.model;
  enable_tags = joined ev.enable_tags;
  disable_tags = joined ev.disable_tags;
}

unfoldable pub touch_busy : ℕ → Daemon → Daemon
touch_busy now d = record d { last_busy = now }

unfoldable pub clear_pending_close : Text → Daemon → Daemon
clear_pending_close session_id d = record d {
  pending_close = λ s. if s == session_id then none else d.pending_close s;
}

-- Sending on the channel resolves the poll.
unfoldable pub cancel_wait : Text → Daemon → Daemon
cancel_wait session_id d = record d { waits = λ s. if s == session_id then false else d.waits s }

-- `t - at < wake_grace_secs()`
unfoldable pub recently_woke : Outside → Text → ℕ → Daemon → Bool
recently_woke outside session_id t d = elim (d.wake_issued_at session_id) [
  | none ↦ false
  | some at ↦ ltb t (at + outside.wake_grace_secs)
]

unfoldable pub record_spawns : Text → ℕ → List (Text × Option Text) → Store → Store
record_spawns session_id t [] s = s
record_spawns session_id t ((tool_use_id, fork_name) ∷ spawns) s =
    record_spawns session_id t spawns (record_spawn session_id tool_use_id fork_name t s)

unfoldable pub set_task_ids : Text → List (Text × Text) → Store → Store
set_task_ids session_id [] s = s
set_task_ids session_id ((tool_use_id, task_id) ∷ ids) s =
    set_task_ids session_id ids (set_spawn_task_id session_id tool_use_id task_id s)

unfoldable pub note_completion : Text → ℕ → TaskNotification → Store → Store
note_completion session_id t n s = elim n.status [
  | none ↦ s
  | some status ↦
      if is_terminal_status status
      then (mark_spawn_terminal session_id n.tool_use_id n.task_id status t s).0
      else s
]

unfoldable pub note_completions : Text → ℕ → List TaskNotification → Store → Store
note_completions session_id t [] s = s
note_completions session_id t (n ∷ ns) s =
    note_completions session_id t ns (note_completion session_id t n s)

unfoldable pub apply_delta : Text → ℕ → Delta → Store → Store
apply_delta session_id t delta s =
    set_transcript_gauge session_id delta.new_offset delta.prompt_tokens (
      note_completions session_id t delta.notifications
        (set_task_ids session_id delta.task_ids (record_spawns session_id t delta.spawns s)))

-- What comes of a read; one that fails leaves the store as it is.
unfoldable pub after_read : Text → ℕ → SessionRow → Option Delta → Store → Store × Option ℕ
after_read session_id t session none s = (s, session.prompt_tokens)
after_read session_id t session (some delta) s =
    (apply_delta session_id t delta s, coalesce delta.prompt_tokens session.prompt_tokens)

unfoldable pub delta_of : Outside → ℕ → Option (List ℕ) → Option Delta
delta_of outside offset none = none
delta_of outside offset (some bytes) = read_delta outside.from_json bytes offset

unfoldable pub ingest_for : Outside → Text → ℕ → Text → Option SessionRow → Store → Store × Option ℕ
ingest_for outside session_id t transcript none s = (s, none)
ingest_for outside session_id t transcript (some session) s =
    after_read session_id t session
      (delta_of outside session.transcript_offset (outside.read_bytes transcript)) s

unfoldable pub ingest_path : Outside → Text → ℕ → Option Text → Store → Store × Option ℕ
ingest_path outside session_id t none s = (s, none)
ingest_path outside session_id t (some transcript) s =
    ingest_for outside session_id t transcript (get_session session_id s) s

-- The store, and the session's best-known token count.
unfoldable pub ingest_transcript : Outside → Event → ℕ → Store → Store × Option ℕ
ingest_transcript outside ev t s = ingest_path outside ev.session_id t ev.transcript_path s

is_some {ℓ} : {A : Type ℓ} → Option A → Bool
is_some none = false
is_some (some a) = true

-- Whether the event reports the end of a background task.
unfoldable pub is_notification : Event → Bool
unfolding is_some
is_notification ev = is_some ev.notif_tool_use_id || is_some ev.notif_task_id

unfoldable pub status_of : Option Text → Text
status_of none = []
status_of (some status) = status

-- The store, and whether a recorded fork spawn is meant.
unfoldable pub match_spawn : Event → ℕ → Store → Store × Bool
unfolding status_of
match_spawn ev t s =
    if is_terminal_status (status_of ev.notif_status)
    then mark_spawn_terminal ev.session_id ev.notif_tool_use_id ev.notif_task_id
        (status_of ev.notif_status) t s
    else (s, is_fork_spawn ev.session_id ev.notif_tool_use_id ev.notif_task_id s)

sniffed : Option Bool → Bool → Bool
sniffed none recent = not recent
sniffed (some waking) recent = waking

-- The store, and whether a prompt is genuine activity.
unfoldable pub classify : Outside → Event → Clock → Daemon → Store × Bool
unfolding sniffed
classify outside ev clock d =
    let recent = recently_woke outside ev.session_id clock.now d in
    if is_notification ev
    then (let (s, matched) =
          match_spawn ev clock.now (ingest_transcript outside ev clock.ingested d.store).0 in
        (s, not matched && not recent))
    else (d.store, sniffed ev.waking recent)

-- Genuine activity begins a new pause.
unfoldable pub begin_pause : Text → Bool → Store → Store
begin_pause session_id waking s =
    if waking then (clear_pending_deps session_id (bump_pause_epoch session_id s)).0 else s

unfoldable pub on_session_start : Event → Clock → Daemon → Daemon
on_session_start ev clock d = record d {
  store = upsert_session (session_event ev) clock.now d.store;
}

unfoldable pub on_prompt_submit : Outside → Event → Clock → Daemon → Daemon
on_prompt_submit outside ev clock d =
    let (s, waking) = classify outside ev clock d in
    let seen =
      set_last_activity ev.session_id clock.now (upsert_session (session_event ev) clock.now s) in
    cancel_wait ev.session_id (record d { store = begin_pause ev.session_id waking seen })

unfoldable pub on_session_end : Event → Daemon → Daemon
on_session_end ev d =
    let cancelled = cancel_wait ev.session_id d in
    record cancelled { store = close_session ev.session_id cancelled.store }

unfoldable pub on_event : EventKind → Outside → Event → Clock → Daemon → Daemon
on_event session_start outside ev clock d = on_session_start ev clock d
on_event prompt_submit outside ev clock d = on_prompt_submit outside ev clock d
on_event session_end outside ev clock d = on_session_end ev d
on_event stop outside ev clock d = d

-- The response is `Ack` in every case.
unfoldable pub handle_event : Outside → Event → Clock → Daemon → Daemon
handle_event outside ev clock d =
    on_event ev.event outside ev clock (clear_pending_close ev.session_id (touch_busy clock.busy d))
