-- ===== src/Store/Sessions.antt =====
-- The session statements of crates/autofork-core/src/store.rs.
use mathlib.Core.Option
use forksan.Prelude.{
  ℕ, ◌+◌, Bool, true, false, ◌&&◌, List, map, Option, none, some, Text, text_eq, ◌==◌, find, filter,
  leb, sort_by,
}
use forksan.Sql.{upsert, update_where, delete_where}
use forksan.Store.Tables.{Store, SessionRecord, SessionRow, opened, closed, split_tags, coalesce}

abbrev pub is_session : Text → SessionRecord → Bool
is_session session_id r = r.session_id == session_id

-- The columns of one lifecycle event.
pub record SessionEvent : Type 0 where
  pub session_id : Text
  pub project_root : Text
  pub cwd : Text
  pub transcript_path : Option Text
  pub model : Option Text
  pub enable_tags : Option Text
  pub disable_tags : Option Text

unfoldable pub new_session : SessionEvent → ℕ → SessionRecord
new_session e now = record {
  session_id = e.session_id;
  project_root = e.project_root;
  cwd = e.cwd;
  transcript_path = e.transcript_path;
  status = opened;
  last_activity = now;
  transcript_offset = 0;
  prompt_tokens = none;
  model = e.model;
  created_at = now;
  enable_tags = e.enable_tags;
  disable_tags = e.disable_tags;
  pause_epoch = 0;
  pause_started_at = none;
}

-- ON CONFLICT: `cwd`, `created_at`, the gauge and the pause columns stay.
unfoldable pub touch_session : SessionEvent → ℕ → SessionRecord → SessionRecord
touch_session e now r = record r {
  project_root = e.project_root;
  transcript_path = coalesce e.transcript_path r.transcript_path;
  model = coalesce e.model r.model;
  enable_tags = e.enable_tags;
  disable_tags = e.disable_tags;
  status = opened;
  last_activity = now;
}

unfoldable pub upsert_session : SessionEvent → ℕ → Store → Store
unfolding new_session touch_session
upsert_session e now s = record s {
  sessions = upsert (is_session e.session_id) (new_session e now) (touch_session e now) s.sessions;
}

unfoldable pub row_to_session : SessionRecord → SessionRow
row_to_session r = record {
  session_id = r.session_id;
  project_root = r.project_root;
  cwd = r.cwd;
  transcript_path = r.transcript_path;
  status = r.status;
  last_activity = r.last_activity;
  transcript_offset = r.transcript_offset;
  prompt_tokens = r.prompt_tokens;
  model = r.model;
  created_at = r.created_at;
  enable_tags = split_tags r.enable_tags;
  disable_tags = split_tags r.disable_tags;
  pause_epoch = r.pause_epoch;
  pause_started_at = r.pause_started_at;
}

unfoldable pub get_session : Text → Store → Option SessionRow
unfolding row_to_session
get_session session_id s = Option.map row_to_session (find (is_session session_id) s.sessions)

unfoldable pub update_session : Text → (SessionRecord → SessionRecord) → Store → Store
update_session session_id f s = record s {
  sessions = update_where (is_session session_id) f s.sessions;
}

-- SET pause_epoch = pause_epoch + 1, pause_started_at = NULL
abbrev pub next_pause : SessionRecord → SessionRecord
next_pause r = record r { pause_epoch = r.pause_epoch + 1; pause_started_at = none }

unfoldable pub bump_pause_epoch : Text → Store → Store
unfolding update_session
bump_pause_epoch session_id = update_session session_id next_pause

abbrev pub is_unset {ℓ} : {A : Type ℓ} → Option A → Bool
is_unset none = true
is_unset (some a) = false

-- The first Stop of a pause sets the baseline.
abbrev pub start_pause : ℕ → SessionRecord → SessionRecord
start_pause now r = record r { pause_started_at = some now }

unfoldable pub set_pause_started_at_if_unset : Text → ℕ → Store → Store
set_pause_started_at_if_unset session_id now s = record s {
  sessions =
      update_where (λ r. is_session session_id r && is_unset r.pause_started_at) (start_pause now)
        s.sessions;
}

unfoldable pub is_open : SessionRecord → Bool
is_open r = elim r.status [ opened ↦ true | closed ↦ false ]

-- ORDER BY last_activity DESC
unfoldable pub list_open_sessions : Store → List SessionRow
unfolding is_open row_to_session
list_open_sessions s = map row_to_session (
    sort_by (λ a b. leb (SessionRecord.last_activity b) (SessionRecord.last_activity a))
      (filter is_open s.sessions))

unfoldable pub set_last_activity : Text → ℕ → Store → Store
unfolding update_session
set_last_activity session_id now = update_session session_id (λ r. record r { last_activity = now })

unfoldable pub set_transcript_gauge : Text → ℕ → Option ℕ → Store → Store
unfolding update_session
set_transcript_gauge session_id offset prompt_tokens = update_session session_id (λ r. record r {
  transcript_offset = offset;
  prompt_tokens = coalesce prompt_tokens r.prompt_tokens;
})

-- One transaction over five tables.
unfoldable pub close_session : Text → Store → Store
close_session session_id s = record s {
  sessions = update_where (is_session session_id) (λ r. record r { status = closed }) s.sessions;
  fork_roster = delete_where (λ r. r.session_id == session_id) s.fork_roster;
  fork_fires = delete_where (λ r. r.session_id == session_id) s.fork_fires;
  fork_spawns = delete_where (λ r. r.session_id == session_id) s.fork_spawns;
  pending_deps = delete_where (λ r. r.session_id == session_id) s.pending_deps;
}
