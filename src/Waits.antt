-- ===== src/Waits.antt =====
-- crates/autofork-daemon/src/daemon.rs: `handle_stop_wait`, the long poll of a Stop hook, as the moves that
-- its timers and the outside make.
pub mod Quiet
pub mod Refines
pub mod Ends
pub mod Dropped
pub mod Parked
pub mod Baseline
pub mod Tests
use forksan.Prelude.{
  leb_i64, ℕ, ◌+◌, ◌-◌, Bool, true, false, not, List, [], ◌∷◌, map, Option, none, some, Text,
  is_empty, ltb, text_eq, nat_eq, ◌==◌, if◌then◌else◌, wrapping_add,
}
use forksan.Config.{Config, Toml, load_config_at}
use forksan.Discovery.{ForkEntry}
use forksan.Moments.{ForkMoment, resolve_context_window, idle_deadlines}
use forksan.Store.{
  Store, SessionRow, upsert_session, set_last_activity, set_pause_started_at_if_unset, get_session,
}
use forksan.Planner.{SelectedFork, Files, Daemon}
use forksan.Planner.Select.{select_forks, visible_forks}
use forksan.Planner.Issue.{build_wake, release_due}
use forksan.Events.{
  Event, Outside, session_event, touch_busy, clear_pending_close, ingest_transcript,
}
use forksan.Polls.{elapsed_moments, on_poll_lost}

-- What surrounds the daemon: the disk, the readers of the formats, and the user's configuration file.
pub record Machine : Type 0 where
  pub files : Files
  pub outside : Outside
  pub toml : Toml
  pub user_config : Text

unfoldable pub cfg_for : Machine → Option Text → Config
cfg_for m project_root = (load_config_at m.files.disk m.toml project_root m.user_config).0

-- `ParkGuard::new` and its `drop`
unfoldable pub park : Text → Daemon → Daemon
park session_id d = record d {
  parked = λ s. if s == session_id then d.parked s + 1 else d.parked s;
}

unfoldable pub unpark : Text → Daemon → Daemon
unpark session_id d = record d {
  parked = λ s. if s == session_id then d.parked s - 1 else d.parked s;
}

unfoldable pub is_parked : Text → Daemon → Bool
is_parked session_id d = ltb 0 (d.parked session_id)

-- The channel of a new poll replaces the one before, whose poll is cancelled.
unfoldable pub register_wait : Text → Daemon → Daemon
register_wait session_id d = record d { waits = λ s. if s == session_id then true else d.waits s }

-- What a poll has fixed once it waits.
pub record Poll : Type 0 where
  pub session : SessionRow
  pub cfg : Config
  pub prompt_tokens : Option ℕ
  pub max_tokens : ℕ
  pub baseline : ℕ
  pub deadlines : List ℕ

-- Where it waits: for a deadline, with those that follow; for the debounce to end; or for nothing but a
-- cancellation.
pub data Phase : Type 0 where
  asleep : ℕ → List ℕ → Phase
  debouncing : ℕ → Phase
  parking : Phase

pub data Answer : Type 0 where
  waited : Answer
  wake : Text → Answer
  dropped : Answer

pub data Wait : Type 0 where
  pending : Poll → Phase → Wait
  done : Answer → Wait

-- The readings of the clock in one evaluation of what is due, in the order of the calls.
pub record Reading : Type 0 where
  pub moments_at : ℕ
  pub roster_at : ℕ
  pub selected_at : ℕ

-- Those of a whole round: an evaluation, the next sleep, and the issue of a wake.
pub record Readings : Type 0 where
  pub check : Reading
  pub slept_at : ℕ
  pub issue : Reading
  pub stamped_at : ℕ
  pub noted_at : ℕ

unfoldable pub moments_of : Poll → Reading → List ForkMoment
moments_of poll r =
    elapsed_moments poll.prompt_tokens poll.max_tokens poll.baseline poll.deadlines r.moments_at

-- The store, and what is selected.
unfoldable pub select_now : Machine → Poll → Reading → Store → Store × List SelectedFork
select_now m poll r s =
    select_forks m.files poll.session poll.cfg (moments_of poll r) r.roster_at r.selected_at s

-- The closure `due_now`.
unfoldable pub due_now : Machine → Poll → Reading → Daemon → Daemon × Bool
due_now m poll r d =
    let (s, selected) = select_now m poll r d.store in
    if is_empty (moments_of poll r)
    then (d, false)
    else (record d { store = s }, not (is_empty selected))

unfoldable pub end_wait : Text → Answer → Daemon → Daemon × Wait
end_wait session_id answer d = (unpark session_id d, done answer)

unfoldable pub answer_or_park : Poll → Daemon × Option Text → Daemon × Wait
answer_or_park poll (d, none) = (d, pending poll parking)
answer_or_park poll (d, some payload) = end_wait poll.session.session_id (wake payload) d

-- Phase C: what is due by now is selected again, and a wake is issued for it.
unfoldable pub issue_wake : Machine → Poll → Readings → Daemon → Daemon × Wait
issue_wake m poll r d =
    let (s, selected) = select_now m poll r.issue d.store in
    answer_or_park poll
      (build_wake poll.session selected r.stamped_at r.noted_at (record d { store = s }))

-- Phase B.
unfoldable pub debounce : Machine → Poll → Readings → Daemon → Daemon × Wait
debounce m poll r d =
    if ltb 0 poll.cfg.wake_debounce_secs
    then (d, pending poll (debouncing poll.cfg.wake_debounce_secs))
    else issue_wake m poll r d

-- `(fire_at - now()).max(0)`, by the loop over the deadlines.
unfoldable pub sleep_next : Poll → ℕ → List ℕ → Phase
sleep_next poll now [] = parking
sleep_next poll now (d ∷ ds) =
    let fire_at = wrapping_add poll.baseline d in
    asleep (if leb_i64 fire_at now then 0 else fire_at - now) ds

-- Phase A: one evaluation, and what follows it.
unfoldable pub check_due : Machine → Poll → Readings → List ℕ → Daemon → Daemon × Wait
check_due m poll r rest d =
    let (d', due) = due_now m poll r.check d in
    if due then debounce m poll r d' else (d', pending poll (sleep_next poll r.slept_at rest))

-- `session.pause_started_at.unwrap_or(t)`
abbrev pub baseline_or : ℕ → Option ℕ → ℕ
baseline_or t none = t
baseline_or t (some b) = b

unfoldable pub poll_of : Machine → Config → Option ℕ → ℕ → SessionRow → Poll
poll_of m cfg prompt_tokens t session = record {
  session = session;
  cfg = cfg;
  prompt_tokens = prompt_tokens;
  max_tokens = resolve_context_window session.model prompt_tokens;
  baseline = baseline_or t session.pause_started_at;
  deadlines =
      idle_deadlines (map (λ e. e.parsed.def) (visible_forks m.files session.cwd))
        cfg.default_idle_deadline_secs;
}

pub record StartClock : Type 0 where
  pub busy : ℕ
  pub now : ℕ
  pub ingested : ℕ
  pub released_at : ℕ
  pub first : Readings

-- Held dependents that can be released are the answer; else the poll waits.
unfoldable pub after_release : Machine → Poll → Readings → Daemon × Option Text → Daemon × Wait
after_release m poll r (d, some payload) = end_wait poll.session.session_id (wake payload) d
after_release m poll r (d, none) = check_due m poll r poll.deadlines d

unfoldable pub wait_for :
    Machine → Text → Config → Option ℕ → StartClock → Option SessionRow → Daemon → Daemon × Wait
wait_for m session_id cfg prompt_tokens clock none d = end_wait session_id waited d
wait_for m session_id cfg prompt_tokens clock (some session) d =
    after_release m (poll_of m cfg prompt_tokens clock.now session) clock.first
      (release_due session clock.released_at d)

-- The handler up to its first wait.
unfoldable pub handle_stop_wait : Machine → Event → StartClock → Daemon → Daemon × Wait
handle_stop_wait m ev clock d =
    let opened = clear_pending_close ev.session_id (touch_busy clock.busy d) in
    let seen = set_pause_started_at_if_unset ev.session_id clock.now (
      set_last_activity ev.session_id clock.now
        (upsert_session (session_event ev) clock.now opened.store)) in
    let (s, prompt_tokens) = ingest_transcript m.outside ev clock.ingested seen in
    wait_for m ev.session_id (cfg_for m (some ev.project_root)) prompt_tokens clock
      (get_session ev.session_id s)
      (park ev.session_id (register_wait ev.session_id (record opened { store = s })))

-- What ends a wait: its timer, a cancellation, the daemon's shutdown, or a lost connection, which drops the
-- poll.
pub data Move : Type 0 where
  elapsed : Readings → Move
  cancelled shut_down lost : Move

unfoldable pub on_elapsed : Machine → Readings → Poll → Phase → Daemon → Daemon × Wait
on_elapsed m r poll (asleep wait rest) d = check_due m poll r rest d
on_elapsed m r poll (debouncing secs) d = issue_wake m poll r d
on_elapsed m r poll parking d = (d, pending poll parking)

unfoldable pub move : Machine → Move → Wait → Daemon → Daemon × Wait
move m (elapsed r) (pending poll phase) d = on_elapsed m r poll phase d
move m cancelled (pending poll phase) d = end_wait poll.session.session_id waited d
move m shut_down (pending poll phase) d = end_wait poll.session.session_id waited d
move m lost (pending poll phase) d =
    (unpark poll.session.session_id (on_poll_lost poll.session.session_id d), done dropped)
move m mv (done answer) d = (d, done answer)
