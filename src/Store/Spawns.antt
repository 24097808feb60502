-- ===== src/Store/Spawns.antt =====
-- The statements of crates/autofork-core/src/store.rs on observed fork spawns.
use forksan.Prelude.{
  ℕ, Bool, true, false, ◌&&◌, ◌||◌, Option, none, some, Text, codes, text_eq, ◌==◌, nat_eq, ltb,
  leb, if◌then◌else◌,
}
use forksan.Sql.{update_where, insert_or_ignore, count_where}
use forksan.Store.Tables.{Store, SpawnRecord, coalesce}

abbrev pub spawned : Text
spawned = codes "spawned"

-- `?n IS NOT NULL AND column = ?n`, false where the column is NULL
abbrev pub is_given : Option Text → Option Text → Bool
is_given none column = false
is_given (some v) none = false
is_given (some v) (some w) = w == v

abbrev pub is_spawn_id : Text → Text → SpawnRecord → Bool
is_spawn_id session_id tool_use_id r = r.session_id == session_id && r.tool_use_id == tool_use_id

unfoldable pub record_spawn : Text → Text → Option Text → ℕ → Store → Store
record_spawn session_id tool_use_id fork_name now s =
    let row : SpawnRecord = record {
      session_id = session_id;
      tool_use_id = tool_use_id;
      task_id = none;
      fork_name = fork_name;
      status = spawned;
      spawned_at = now;
      terminal_at = none;
    } in
    record s {
      fork_spawns = (insert_or_ignore (is_spawn_id session_id tool_use_id) row s.fork_spawns).0;
    }

unfoldable pub set_spawn_task_id : Text → Text → Text → Store → Store
set_spawn_task_id session_id tool_use_id task_id s = record s {
  fork_spawns =
      update_where (is_spawn_id session_id tool_use_id)
        (λ r. record r { task_id = coalesce r.task_id (some task_id) }) s.fork_spawns;
}

-- The rows that a notification's ids name.
abbrev pub is_notified : Text → Option Text → Option Text → SpawnRecord → Bool
is_notified session_id tool_use_id task_id r =
    r.session_id == session_id
    && (is_given tool_use_id (some r.tool_use_id) || is_given task_id r.task_id)

unfoldable pub is_fork_spawn : Text → Option Text → Option Text → Store → Bool
is_fork_spawn session_id tool_use_id task_id s =
    ltb 0 (count_where (is_notified session_id tool_use_id task_id) s.fork_spawns)

-- The store, and whether a spawn matched. A spawn that is terminal already keeps its status.
unfoldable pub mark_spawn_terminal :
    Text → Option Text → Option Text → Text → ℕ → Store → Store × Bool
unfolding is_fork_spawn
mark_spawn_terminal session_id tool_use_id task_id status now s =
    if is_fork_spawn session_id tool_use_id task_id s
    then (
      record s {
        fork_spawns =
            update_where (λ r. r.status == spawned && is_notified session_id tool_use_id task_id r)
              (λ r. record r { status = status; terminal_at = some now }) s.fork_spawns;
      },
      true,
    )
    else (s, false)

abbrev pub is_terminal : Text → Bool
is_terminal status =
    status == codes "completed" || (status == codes "failed" || status == codes "stopped")

abbrev pub since_or_later : ℕ → Option ℕ → Bool
since_or_later since none = false
since_or_later since (some t) = leb since t

abbrev pub is_completion : Text → Text → ℕ → SpawnRecord → Bool
is_completion session_id fork_name since r =
    r.session_id == session_id
    && (is_given (some fork_name) r.fork_name
        && (is_terminal r.status && since_or_later since r.terminal_at))

unfoldable pub fork_completed_since : Text → Text → ℕ → Store → Bool
fork_completed_since session_id fork_name since s =
    ltb 0 (count_where (is_completion session_id fork_name since) s.fork_spawns)
