-- ===== src/Planner/Select.antt =====
-- planner.rs, `refresh_roster` and `select_forks`: which rostered forks are due.
use mathlib.Core.List.{filter_map}
use forksan.Prelude.{
  ℕ, ◌-◌, Bool, false, not, ◌&&◌, List, [], ◌∷◌, Option, none, some, Text, any, is_empty, text_eq,
  ◌==◌, if◌then◌else◌, ltb_i64, find,
}
use forksan.Frontmatter.{ForkDef, ForkRunOn, ForkParse, fork, not_fork, invalid, label}
use forksan.Frontmatter.File.{parse_fork_file}
use forksan.Moments.{ForkMoment, match_moments}
use forksan.Tags.{tags_allowed}
use forksan.Store.{
  Store, SessionRow, RosterEntry, queue_fork, roster, is_latched, last_run_for_tags, coalesce,
}
use forksan.Config.{Config}
use forksan.Discovery.{ForkEntry, discover_forks}
use forksan.Planner.{SelectedFork, Files, latch_key_for}

unfoldable pub queue_all : Text → ℕ → List ForkEntry → Store → Store
queue_all session_id t [] s = s
queue_all session_id t (e ∷ es) s =
    queue_all session_id t es (queue_fork session_id (ForkEntry.name e) (ForkEntry.path e) t s).0

-- The forks that a session in a directory sees.
unfoldable pub visible_forks : Files → Text → List ForkEntry
visible_forks files cwd =
    (discover_forks files.disk files.from_str cwd (some files.user_forks_root)).entries

unfoldable pub refresh_roster : Files → Text → Text → ℕ → Store → Store
unfolding queue_all
refresh_roster files session_id cwd t s = queue_all session_id t (visible_forks files cwd) s

unfoldable pub as_fork : ForkParse → Option ForkDef
as_fork (fork parsed) = some parsed.def
as_fork (not_fork fork_like) = none
as_fork invalid = none

-- `(t - last).max(0) < window as i64`
unfoldable pub is_recent : ℕ → ℕ → ℕ → Bool
is_recent t last window = ltb_i64 (t - last) window

unfoldable pub fork_throttled : Option ℕ → Option ℕ → ℕ → Bool
unfolding is_recent
fork_throttled (some throttle) (some ran_at) t = is_recent t ran_at throttle
fork_throttled throttle ran_at t = false

throttled_by : Text → ℕ → Store → Text → Option (Text × ℕ) → Bool
unfolding is_recent
throttled_by project_root t s tag none = false
throttled_by project_root t s tag (some (key, window)) =
    elim (last_run_for_tags project_root (tag ∷ []) s) [
      | none ↦ false
      | some last ↦ is_recent t last window
    ]

unfoldable pub tag_throttled : List (Text × ℕ) → List Text → Text → ℕ → Store → Bool
unfolding throttled_by
tag_throttled tag_throttles tags project_root t s =
    if not (is_empty tags) && not (is_empty tag_throttles)
    then any (λ tag. throttled_by project_root t s tag (find (λ p. p.0 == tag) tag_throttles)) tags
    else false

unfoldable pub latch_taken : Text → Text → Option Text → Store → Bool
latch_taken session_id fork_name none s = false
latch_taken session_id fork_name (some key) s = is_latched session_id fork_name key s

-- A rostered fork whose definition is read and whose trigger is matched.
unfoldable pub select_matched :
    SessionRow → Config → ℕ → Store → RosterEntry → ForkDef → ForkRunOn → Option SelectedFork
select_matched session cfg t s entry def trigger =
    let latch_key = latch_key_for trigger session.pause_epoch in
    if fork_throttled def.throttle_secs entry.ran_at t
    then none
    else if tag_throttled cfg.tag_throttles def.tags session.project_root t s
    then none
    else if latch_taken session.session_id entry.fork_name latch_key s
    then none
    else some (record {
      name = entry.fork_name;
      path = entry.fork_path;
      trigger = label trigger;
      overlap = def.overlap;
      after = def.after;
      tags = def.tags;
      latch_key = latch_key;
    })

unfoldable pub select_def :
    SessionRow → Config → List ForkMoment → ℕ → Store → RosterEntry → ForkDef → Option SelectedFork
select_def session cfg moments t s entry def =
    if tags_allowed def.tags (coalesce session.enable_tags cfg.enable_tags)
      (coalesce session.disable_tags cfg.disable_tags)
    then elim (match_moments def moments cfg.default_idle_deadline_secs) [
      | none ↦ none
      | some trigger ↦ select_matched session cfg t s entry def trigger
    ]
    else none

-- One round of the loop over the roster: `none` is `continue`.
unfoldable pub select_entry :
    Files → SessionRow → Config → List ForkMoment → ℕ → Store → RosterEntry → Option SelectedFork
unfolding as_fork
select_entry files session cfg moments t s entry =
    elim (files.disk.read_to_string entry.fork_path) [
      | none ↦ none
      | some content ↦ elim (as_fork (parse_fork_file files.from_str entry.fork_name content)) [
        | none ↦ none
        | some def ↦ select_def session cfg moments t s entry def
      ]
    ]

-- The clock is read once for the roster and once for the rest. Only the roster is written.
unfoldable pub select_forks :
    Files → SessionRow → Config → List ForkMoment → ℕ → ℕ → Store → Store × List SelectedFork
select_forks files session cfg moments t_roster t s =
    let s' = refresh_roster files session.session_id session.cwd t_roster s in
    (s', filter_map (select_entry files session cfg moments t s') (roster session.session_id s'))
