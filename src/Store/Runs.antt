-- ===== src/Store/Runs.antt =====
-- The statements of crates/autofork-core/src/store.rs on issued wakes.
use forksan.Prelude.{
  ℕ, suc, Bool, false, ◌&&◌, ◌||◌, List, [], ◌∷◌, ◌++◌, Option, none, some, Text, codes, text_eq,
  ◌==◌, nat_eq, any, filter, ltb, leb, sort_by, contains, is_empty, take, if◌then◌else◌,
}
use forksan.Store.Tables.{Store, RunRecord, SessionRecord, split_list}

-- AUTOINCREMENT: rows are never deleted, so the next id is one more than their number.
next_id : List RunRecord → ℕ
next_id [] = 1
next_id (r ∷ rs) = suc (next_id rs)

unfoldable pub record_issued_run : Text → Text → Text → Option Text → ℕ → Store → Store
unfolding next_id
record_issued_run session_id fork_name trigger_label tags now s =
    let row : RunRecord = record {
      id = next_id s.fork_runs;
      session_id = session_id;
      fork_name = fork_name;
      trigger_label = trigger_label;
      state = codes "issued";
      started_at = now;
      tags = tags;
    } in
    record s { fork_runs = s.fork_runs ++ (row ∷ []) }

-- The row's session is in the project, by the join of the query.
in_project : Text → List SessionRecord → RunRecord → Bool
in_project project_root sessions r =
    any
      (λ x.
        SessionRecord.session_id x == r.session_id && SessionRecord.project_root x == project_root)
      sessions

-- `tags IS NOT NULL`, and one of the row's tags is asked for.
carries_tag : List Text → Option Text → Bool
carries_tag tags none = false
carries_tag tags (some row_tags) = any (λ t. contains tags t) (split_list row_tags)

-- ORDER BY started_at DESC
newest_first : List RunRecord → List RunRecord
newest_first = sort_by (λ a b. leb (RunRecord.started_at b) (RunRecord.started_at a))

first_hit : List Text → List RunRecord → Option ℕ
unfolding carries_tag
first_hit tags [] = none
first_hit tags (r ∷ rs) =
    let rest = first_hit tags rs in if carries_tag tags r.tags then some r.started_at else rest

unfoldable pub last_run_for_tags : Text → List Text → Store → Option ℕ
unfolding in_project newest_first first_hit
last_run_for_tags project_root tags s =
    if is_empty tags
    then none
    else first_hit tags (newest_first (filter (in_project project_root s.sessions) s.fork_runs))

-- ORDER BY started_at DESC, id DESC
listed_before : RunRecord → RunRecord → Bool
listed_before a b = ltb b.started_at a.started_at || (a.started_at == b.started_at && leb b.id a.id)

unfoldable pub list_runs : List Text → ℕ → Store → List RunRecord
unfolding listed_before
list_runs states limit s =
    take limit (sort_by listed_before (filter (λ r. contains states r.state) s.fork_runs))
