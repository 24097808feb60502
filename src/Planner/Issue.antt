-- ===== src/Planner/Issue.antt =====
-- planner.rs, `build_wake` and `release_due`: what a wake writes and what it says.
use forksan.Prelude.{
  ℕ, suc, Bool, List, [], ◌∷◌, map, Option, none, some, Text, all, filter, is_empty, get_elem?,
  get_or, join, if◌then◌else◌,
}
use forksan.Schedule.{Graph, resolve_deps}
use forksan.Store.{
  Store, SessionRow, PendingDep, touch_fork_ran, record_issued_run, try_latch_fire,
  insert_pending_dep, list_pending_deps, fork_completed_since, delete_pending_dep,
}
use forksan.Wake.{DueFork, HeldFork, Ids, build_wake_payload, build_release_payload}
use forksan.Planner.{SelectedFork, Daemon, note_wake_issued, conversation_id, selected_fork}

unfoldable pub latch : SessionRow → ℕ → SelectedFork → Option Text → Store → Store
latch session t sel none s = s
latch session t sel (some key) s = (try_latch_fire session.session_id sel.name key t s).0

-- The throttles and the latch of one selected fork.
unfoldable pub stamp : SessionRow → ℕ → SelectedFork → Store → Store
unfolding latch
stamp session t sel s =
    let tags_joined = if is_empty sel.tags then none else some (join (b',' ∷ []) sel.tags) in
    let ran = touch_fork_ran session.session_id sel.name t s in
    let recorded = record_issued_run session.session_id sel.name sel.trigger tags_joined t ran in
    latch session t sel sel.latch_key recorded

-- `selected[j].name`. The indices of a graph of the selection are in range.
name_at : List SelectedFork → ℕ → Text
name_at selected j = elim (get_elem? selected j) [ none ↦ [] | some sel ↦ sel.name ]

unfoldable pub preds_of : List SelectedFork → Graph → ℕ → List Text
unfolding name_at
preds_of selected deps i = map (name_at selected) (get_or deps i [])

hold : SessionRow → ℕ → SelectedFork → List Text → Store → Store
hold session t sel preds s =
    insert_pending_dep session.session_id sel.name sel.path sel.trigger sel.overlap preds t s

pub record Issued : Type 0 where
  pub store : Store
  pub roots : List DueFork
  pub held : List HeldFork

abbrev pub due_now : SelectedFork → DueFork
due_now sel = record {
  name = sel.name;
  path = sel.path;
  trigger = sel.trigger;
  overlap = sel.overlap;
  after = [];
}

-- What one round of the loop writes.
unfoldable pub issue_one : SessionRow → ℕ → SelectedFork → List Text → Store → Store
unfolding hold
issue_one session t sel preds s =
    let stamped = stamp session t sel s in
    if is_empty preds then stamped else hold session t sel preds stamped

-- What it puts in front of what the later rounds push.
unfoldable pub add_issued : SelectedFork → List Text → Issued → Issued
add_issued sel [] rest = record rest { roots = due_now sel ∷ rest.roots }
add_issued sel (pred ∷ preds) rest = record rest {
  held = record { name = sel.name; after = pred ∷ preds } ∷ rest.held;
}

-- The loop over the selected forks, from index `i` on.
unfoldable pub issue :
    SessionRow → ℕ → List SelectedFork → Graph → ℕ → List SelectedFork → Store → Issued
issue session t selected deps i [] s = record { store = s; roots = []; held = [] }
issue session t selected deps i (sel ∷ sels) s =
    let preds = preds_of selected deps i in
    add_issued sel preds
      (issue session t selected deps (suc i) sels (issue_one session t sel preds s))

abbrev pub ids_of : SessionRow → Ids
ids_of session = record {
  session_id = session.session_id;
  conversation_id = conversation_id session;
  project_root = session.project_root;
}

-- The clock is read once for the stamps and once for the note of the wake.
unfoldable pub build_wake : SessionRow → List SelectedFork → ℕ → ℕ → Daemon → Daemon × Option Text
build_wake session [] t noted_at d = (d, none)
build_wake session (sel ∷ sels) t noted_at d =
    let selected = sel ∷ sels in
    let issued = issue session t selected (resolve_deps selected) 0 selected d.store in
    (
      note_wake_issued session.session_id noted_at (record d { store = issued.store }),
      some (build_wake_payload (ids_of session) issued.roots issued.held),
    )

unfoldable pub is_releasable : Text → Store → PendingDep → Bool
is_releasable session_id s dep =
    all (λ pred. fork_completed_since session_id pred dep.created_at s) dep.preds

unfoldable pub due_release : PendingDep → DueFork
due_release dep = record {
  name = dep.fork_name;
  path = dep.fork_path;
  trigger = dep.trigger_label;
  overlap = dep.overlap;
  after = dep.preds;
}

unfoldable pub delete_all : Text → List PendingDep → Store → Store
delete_all session_id [] s = s
delete_all session_id (dep ∷ deps) s =
    delete_all session_id deps (delete_pending_dep session_id (PendingDep.fork_name dep) s)

unfoldable pub releasable : Text → Store → List PendingDep
unfolding is_releasable
releasable session_id s = filter (is_releasable session_id s) (list_pending_deps session_id s)

unfoldable pub release_all : SessionRow → ℕ → List PendingDep → Daemon → Daemon × Option Text
release_all session noted_at [] d = (d, none)
release_all session noted_at (dep ∷ deps) d = (
  note_wake_issued session.session_id noted_at
      (record d { store = delete_all session.session_id (dep ∷ deps) d.store }),
  some (build_release_payload (ids_of session) (map due_release (dep ∷ deps))),
)

unfoldable pub release_due : SessionRow → ℕ → Daemon → Daemon × Option Text
unfolding release_all
release_due session noted_at d =
    release_all session noted_at (releasable session.session_id d.store) d
