-- ===== src/Store/Roster.antt =====
-- The roster and latch statements of crates/autofork-core/src/store.rs.
use forksan.Prelude.{
  ℕ, Bool, ◌&&◌, ◌||◌, List, map, none, some, Text, text_eq, ◌==◌, nat_eq, filter, ltb, text_leb,
  sort_by,
}
use forksan.Sql.{update_where, insert_or_ignore, count_where}
use forksan.Store.Tables.{Store, RosterRecord, RosterEntry, FireRecord}

abbrev pub is_rostered : Text → Text → RosterRecord → Bool
is_rostered session_id fork_name r = r.session_id == session_id && r.fork_name == fork_name

-- The store, and whether the fork is newly queued.
unfoldable pub queue_fork : Text → Text → Text → ℕ → Store → Store × Bool
queue_fork session_id fork_name fork_path now s =
    let row : RosterRecord = record {
      session_id = session_id;
      fork_name = fork_name;
      fork_path = fork_path;
      queued_at = now;
      ran_at = none;
    } in
    let (rows, queued) = insert_or_ignore (is_rostered session_id fork_name) row s.fork_roster in
    (record s { fork_roster = rows }, queued)

roster_entry : RosterRecord → RosterEntry
roster_entry r = record {
  fork_name = r.fork_name;
  fork_path = r.fork_path;
  queued_at = r.queued_at;
  ran_at = r.ran_at;
}

-- ORDER BY queued_at, fork_name
queued_before : RosterRecord → RosterRecord → Bool
queued_before a b =
    ltb a.queued_at b.queued_at || (a.queued_at == b.queued_at && text_leb a.fork_name b.fork_name)

unfoldable pub roster : Text → Store → List RosterEntry
unfolding roster_entry queued_before
roster session_id s =
    map roster_entry
      (sort_by queued_before (filter (λ r. r.session_id == session_id) s.fork_roster))

unfoldable pub touch_fork_ran : Text → Text → ℕ → Store → Store
touch_fork_ran session_id fork_name now s = record s {
  fork_roster =
      update_where (is_rostered session_id fork_name) (λ r. record r { ran_at = some now })
        s.fork_roster;
}

abbrev pub is_fire : Text → Text → Text → FireRecord → Bool
is_fire session_id fork_name trigger_label r =
    r.session_id == session_id && (r.fork_name == fork_name && r.trigger_label == trigger_label)

unfoldable pub is_latched : Text → Text → Text → Store → Bool
is_latched session_id fork_name trigger_label s =
    ltb 0 (count_where (is_fire session_id fork_name trigger_label) s.fork_fires)

-- The store, and whether the trigger is newly latched.
unfoldable pub try_latch_fire : Text → Text → Text → ℕ → Store → Store × Bool
try_latch_fire session_id fork_name trigger_label now s =
    let row : FireRecord = record {
      session_id = session_id;
      fork_name = fork_name;
      trigger_label = trigger_label;
      fired_at = now;
    } in
    let (rows, fired) =
      insert_or_ignore (is_fire session_id fork_name trigger_label) row s.fork_fires in
    (record s { fork_fires = rows }, fired)
