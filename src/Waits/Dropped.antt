-- ===== src/Waits/Dropped.antt =====
-- daemon.rs, `handle_stop_wait`: only the loss of its connection drops a poll.
use forksan.Prelude.{
  ℕ, Bool, true, false, List, Option, some, none, Text, if◌then◌else◌, ◌≡◌, refl, ltb,
}
use forksan.Store.{SessionRow}
use forksan.Config.{Config}
use forksan.Planner.{Daemon}
use forksan.Planner.Issue.{release_due}
use forksan.Events.{Event}
use forksan.Waits.{
  Machine, Poll, Phase, asleep, debouncing, parking, Wait, pending, done, dropped, Move, elapsed,
  cancelled, shut_down, lost, Readings, StartClock, move, on_elapsed, end_wait, check_due, debounce,
  issue_wake, answer_or_park, after_release, wait_for, handle_stop_wait, due_now, sleep_next,
}

-- Only the loss of its connection drops a poll.
unfoldable pub is_dropped : Wait → Bool
is_dropped (done dropped) = true
is_dropped w = false

if-is_dropped :
    (c : Bool) (a b : Daemon × Wait)
    → is_dropped a.1 ≡ false
    → is_dropped b.1 ≡ false
    → is_dropped (if◌then◌else◌ {A = Daemon × Wait} c a b).1 ≡ false
if-is_dropped true a b p q = p
if-is_dropped false a b p q = q

answer_or_park-is_dropped :
    (poll : Poll) (r : Daemon × Option Text) → is_dropped (answer_or_park poll r).1 ≡ false
unfolding answer_or_park end_wait is_dropped
answer_or_park-is_dropped poll (d, none) = refl
answer_or_park-is_dropped poll (d, some payload) = refl

check_due-is_dropped :
    (m : Machine) (poll : Poll) (r : Readings) (later : List ℕ) (d : Daemon)
    → is_dropped (check_due m poll r later d).1 ≡ false
unfolding check_due debounce issue_wake is_dropped
check_due-is_dropped m poll r later d =
    let checked = (due_now m poll r.check d).0 in
    if-is_dropped (due_now m poll r.check d).1 (debounce m poll r checked)
      (checked, pending poll (sleep_next poll r.slept_at later))
      (if-is_dropped (ltb 0 poll.cfg.wake_debounce_secs)
        (checked, pending poll (debouncing poll.cfg.wake_debounce_secs))
        (issue_wake m poll r checked) refl (answer_or_park-is_dropped poll _))
      refl

pub handle_stop_wait-is_dropped :
    (m : Machine) (ev : Event) (clock : StartClock) (d : Daemon)
    → is_dropped (handle_stop_wait m ev clock d).1 ≡ false
unfolding handle_stop_wait
handle_stop_wait-is_dropped m ev clock d = at _ _ _ _
  where
    released :
        (poll : Poll) (r : Daemon × Option Text)
        → is_dropped (after_release m poll clock.first r).1 ≡ false
    released poll (d, none) =
        unfold after_release in check_due-is_dropped m poll clock.first poll.deadlines d
    released poll (d, some payload) = unfold after_release end_wait is_dropped in refl

    at :
        (cfg : Config) (pt : Option ℕ) (o : Option SessionRow) (d : Daemon)
        → is_dropped (wait_for m ev.session_id cfg pt clock o d).1 ≡ false
    at cfg pt none d = unfold wait_for end_wait is_dropped in refl
    at cfg pt (some session) d =
        unfold wait_for in released _ (release_due session clock.released_at d)

-- A move that a live connection makes.
abbrev pub is_live : Move → Bool
is_live lost = false
is_live mv = true

pub move-is_dropped :
    (m : Machine) (mv : Move) (poll : Poll) (phase : Phase) (d : Daemon)
    → is_live mv ≡ true
    → is_dropped (move m mv (pending poll phase) d).1 ≡ false
unfolding move on_elapsed end_wait issue_wake is_dropped
move-is_dropped m (elapsed r) poll (asleep wait later) d h = check_due-is_dropped m poll r later d
move-is_dropped m (elapsed r) poll (debouncing secs) d h = answer_or_park-is_dropped poll _
move-is_dropped m (elapsed r) poll parking d h = refl
move-is_dropped m cancelled poll phase d h = refl
move-is_dropped m shut_down poll phase d h = refl
move-is_dropped m lost poll phase d h = cc
