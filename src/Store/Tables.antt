-- ===== src/Store/Tables.antt =====
-- The tables and row types of crates/autofork-core/src/store.rs. Times are epoch seconds, which are
-- not negative; a path is its text; columns that are never read are left out.
use forksan.Prelude.{
  ℕ, Bool, List, [], Option, none, some, Text, split, trim, map, filter, not, is_empty,
}

pub data SessionStatus : Type 0 where
  opened closed : SessionStatus

-- A row of `sessions`: the tag filters are comma-joined text.
pub record SessionRecord : Type 0 where
  pub session_id : Text
  pub project_root : Text
  pub cwd : Text
  pub transcript_path : Option Text
  pub status : SessionStatus
  pub last_activity : ℕ
  pub transcript_offset : ℕ
  pub prompt_tokens : Option ℕ
  pub model : Option Text
  pub created_at : ℕ
  pub enable_tags : Option Text
  pub disable_tags : Option Text
  pub pause_epoch : ℕ
  pub pause_started_at : Option ℕ

-- `SessionRow`: the row as the code sees it, with the tag lists split.
pub record SessionRow : Type 0 where
  pub session_id : Text
  pub project_root : Text
  pub cwd : Text
  pub transcript_path : Option Text
  pub status : SessionStatus
  pub last_activity : ℕ
  pub transcript_offset : ℕ
  pub prompt_tokens : Option ℕ
  pub model : Option Text
  pub created_at : ℕ
  pub enable_tags : Option (List Text)
  pub disable_tags : Option (List Text)
  pub pause_epoch : ℕ
  pub pause_started_at : Option ℕ

pub record RosterRecord : Type 0 where
  pub session_id : Text
  pub fork_name : Text
  pub fork_path : Text
  pub queued_at : ℕ
  pub ran_at : Option ℕ

pub record RosterEntry : Type 0 where
  pub fork_name : Text
  pub fork_path : Text
  pub queued_at : ℕ
  pub ran_at : Option ℕ

pub record FireRecord : Type 0 where
  pub session_id : Text
  pub fork_name : Text
  pub trigger_label : Text
  pub fired_at : ℕ

pub record RunRecord : Type 0 where
  pub id : ℕ
  pub session_id : Text
  pub fork_name : Text
  pub trigger_label : Text
  pub state : Text
  pub started_at : ℕ
  pub tags : Option Text

pub record SpawnRecord : Type 0 where
  pub session_id : Text
  pub tool_use_id : Text
  pub task_id : Option Text
  pub fork_name : Option Text
  pub status : Text
  pub spawned_at : ℕ
  pub terminal_at : Option ℕ

pub record PendingRecord : Type 0 where
  pub session_id : Text
  pub fork_name : Text
  pub fork_path : Text
  pub trigger_label : Text
  pub overlap : Bool
  pub preds : Text
  pub created_at : ℕ

pub record PendingDep : Type 0 where
  pub fork_name : Text
  pub fork_path : Text
  pub trigger_label : Text
  pub overlap : Bool
  pub preds : List Text
  pub created_at : ℕ

pub record Store : Type 0 where
  pub sessions : List SessionRecord
  pub fork_roster : List RosterRecord
  pub fork_fires : List FireRecord
  pub fork_runs : List RunRecord
  pub fork_spawns : List SpawnRecord
  pub pending_deps : List PendingRecord

-- A fresh database.
abbrev pub empty : Store
empty = record {
  sessions = [];
  fork_roster = [];
  fork_fires = [];
  fork_runs = [];
  fork_spawns = [];
  pending_deps = [];
}

-- The pieces of a comma-joined column, trimmed, without the empty ones.
unfoldable pub split_list : Text → List Text
split_list s = filter (λ t. not (is_empty t)) (map trim (split b',' s))

unfoldable pub split_tags : Option Text → Option (List Text)
unfolding split_list
split_tags none = none
split_tags (some s) = some (split_list s)

-- COALESCE(new, old)
abbrev pub coalesce {ℓ} : {A : Type ℓ} → Option A → Option A → Option A
coalesce none old = old
coalesce (some a) old = some a
