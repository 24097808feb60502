-- ===== src/Store/Pending.antt =====
-- The statements of crates/autofork-core/src/store.rs on held dependents.
use forksan.Prelude.{
  ℕ, Bool, ◌&&◌, ◌||◌, List, [], ◌∷◌, map, Text, text_eq, ◌==◌, nat_eq, filter, ltb, text_leb,
  sort_by, join,
}
use forksan.Sql.{delete_where, insert_or_replace, count_where}
use forksan.Store.Tables.{Store, PendingRecord, PendingDep, split_list}

abbrev pub is_pending : Text → Text → PendingRecord → Bool
is_pending session_id fork_name r = r.session_id == session_id && r.fork_name == fork_name

unfoldable pub insert_pending_dep : Text → Text → Text → Text → Bool → List Text → ℕ → Store → Store
insert_pending_dep session_id fork_name fork_path trigger_label overlap preds now s =
    let row : PendingRecord = record {
      session_id = session_id;
      fork_name = fork_name;
      fork_path = fork_path;
      trigger_label = trigger_label;
      overlap = overlap;
      preds = join (b',' ∷ []) preds;
      created_at = now;
    } in
    record s {
      pending_deps = insert_or_replace (is_pending session_id fork_name) row s.pending_deps;
    }

unfoldable pub pending_dep : PendingRecord → PendingDep
pending_dep r = record {
  fork_name = r.fork_name;
  fork_path = r.fork_path;
  trigger_label = r.trigger_label;
  overlap = r.overlap;
  preds = split_list r.preds;
  created_at = r.created_at;
}

-- ORDER BY created_at, fork_name
unfoldable pub held_before : PendingRecord → PendingRecord → Bool
held_before a b =
    ltb a.created_at b.created_at
    || (a.created_at == b.created_at && text_leb a.fork_name b.fork_name)

unfoldable pub list_pending_deps : Text → Store → List PendingDep
unfolding pending_dep held_before
list_pending_deps session_id s =
    map pending_dep (sort_by held_before (filter (λ r. r.session_id == session_id) s.pending_deps))

unfoldable pub delete_pending_dep : Text → Text → Store → Store
delete_pending_dep session_id fork_name s = record s {
  pending_deps = delete_where (is_pending session_id fork_name) s.pending_deps;
}

-- The store, and how many rows were dropped.
unfoldable pub clear_pending_deps : Text → Store → Store × ℕ
clear_pending_deps session_id s = (
  record s { pending_deps = delete_where (λ r. r.session_id == session_id) s.pending_deps },
  count_where (λ r. r.session_id == session_id) s.pending_deps,
)
