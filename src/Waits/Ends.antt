-- ===== src/Waits/Ends.antt =====
-- daemon.rs, `handle_stop_wait`: how long a poll runs by itself.
use forksan.Prelude.{
  max, ℕ, ◌+◌, ◌≤◌, ◌≡◌, refl, Bool, true, false, List, [], ◌∷◌, Option, none, some, Text, arith,
  length, if◌then◌else◌, ltb, text_eq,
}
use forksan.Store.{SessionRow}
use forksan.Config.{Config}
use forksan.Planner.{Daemon}
use forksan.Events.{Event}
use forksan.Waits.{
  Machine, Poll, Phase, asleep, debouncing, parking, Wait, pending, done, Readings, StartClock,
  elapsed, due_now, end_wait, answer_or_park, issue_wake, debounce, sleep_next, check_due,
  after_release, wait_for, handle_stop_wait, on_elapsed, move,
}

-- How many timers a poll can still run through.
abbrev rank : Phase → ℕ
rank (asleep wait later) = 2 + length later
rank (debouncing secs) = 1
rank parking = 0

abbrev timers : Wait → ℕ
timers (pending poll phase) = rank phase
timers (done answer) = 0

-- Answered, or waiting for a cancellation alone.
abbrev pub is_settled : Wait → Bool
is_settled (pending poll (asleep wait later)) = false
is_settled (pending poll (debouncing secs)) = false
is_settled (pending poll parking) = true
is_settled (done answer) = true

-- The timers of a poll, each with whatever happened to the daemon before it ran out.
unfoldable pub run_out :
    Machine → List (Readings × (Daemon → Daemon)) → Daemon × Wait → Daemon × Wait
run_out m [] r = r
run_out m ((readings, others) ∷ later) (d, w) =
    run_out m later (move m (elapsed readings) w (others d))

timers-answer_or_park :
    (poll : Poll) (d : Daemon) (o : Option Text) → timers (answer_or_park poll (d, o)).1 ≡ 0
unfolding answer_or_park end_wait
timers-answer_or_park poll d none = refl
timers-answer_or_park poll d (some payload) = refl

timers-issue_wake :
    (m : Machine) (poll : Poll) (r : Readings) (d : Daemon) → timers (issue_wake m poll r d).1 ≡ 0
unfolding issue_wake
timers-issue_wake m poll r d = timers-answer_or_park poll _ _

if-timers :
    (c : Bool) (a b : Daemon × Wait) (n : ℕ)
    → timers a.1 ≤ n
    → timers b.1 ≤ n
    → timers (if◌then◌else◌ {A = Daemon × Wait} c a b).1 ≤ n
if-timers true a b n p q = p
if-timers false a b n p q = q

timers-sleep_next :
    (poll : Poll) (now : ℕ) (later : List ℕ) → rank (sleep_next poll now later) ≤ 1 + length later
unfolding sleep_next
timers-sleep_next poll now [] = omega arith
timers-sleep_next poll now (d ∷ ds) = omega arith

timers-check_due :
    (m : Machine) (poll : Poll) (r : Readings) (later : List ℕ) (d : Daemon)
    → timers (check_due m poll r later d).1 ≤ 1 + length later
unfolding check_due debounce
timers-check_due m poll r later d =
    let checked = (due_now m poll r.check d).0 in
    let issued = timers-issue_wake m poll r checked in
    if-timers (due_now m poll r.check d).1 (debounce m poll r checked)
      (checked, pending poll (sleep_next poll r.slept_at later)) (1 + length later)
      (if-timers (ltb 0 poll.cfg.wake_debounce_secs)
        (checked, pending poll (debouncing poll.cfg.wake_debounce_secs))
        (issue_wake m poll r checked) (1 + length later) (omega arith) (omega (arith, issued)))
      (timers-sleep_next poll r.slept_at later)

-- Each timer that runs out leaves fewer.
timers-move :
    (m : Machine) (r : Readings) (w : Wait) (d : Daemon)
    → timers (move m (elapsed r) w d).1 + 1 ≤ max 1 (timers w)
unfolding move on_elapsed
timers-move m r (pending poll (asleep wait later)) d =
    omega (arith, timers-check_due m poll r later d)
timers-move m r (pending poll (debouncing secs)) d = omega (arith, timers-issue_wake m poll r d)
timers-move m r (pending poll parking) d = omega arith
timers-move m r (done answer) d = omega arith

timers-settled : (w : Wait) → timers w ≡ 0 → is_settled w ≡ true
timers-settled (pending poll (asleep wait later)) h = absurd (omega arith)
timers-settled (pending poll (debouncing secs)) h = absurd (omega arith)
timers-settled (pending poll parking) h = refl
timers-settled (done answer) h = refl

run_out-settles :
    (m : Machine) (rs : List (Readings × (Daemon → Daemon))) (r : Daemon × Wait)
    → timers r.1 ≤ length rs
    → is_settled (run_out m rs r).1 ≡ true
unfolding run_out
run_out-settles m [] (d, w) h = timers-settled w (omega arith)
run_out-settles m ((readings, others) ∷ rs) (d, w) h =
    run_out-settles m rs (move m (elapsed readings) w (others d))
      (omega (arith, timers-move m readings w (others d)))

abbrev pub deadlines_of : Wait → ℕ
deadlines_of (pending poll phase) = length poll.deadlines
deadlines_of (done answer) = 0

abbrev Within : Wait → Type 0
Within w = timers w ≤ 1 + deadlines_of w

if-Within :
    (c : Bool) (a b : Daemon × Wait)
    → Within a.1
    → Within b.1
    → Within (if◌then◌else◌ {A = Daemon × Wait} c a b).1
if-Within true a b p q = p
if-Within false a b p q = q

answer_or_park-Within :
    (poll : Poll) (d : Daemon) (o : Option Text) → Within (answer_or_park poll (d, o)).1
unfolding answer_or_park end_wait
answer_or_park-Within poll d none = omega arith
answer_or_park-Within poll d (some payload) = omega arith

-- The first evaluation of a poll, with all its deadlines ahead.
check_due-Within :
    (m : Machine) (poll : Poll) (r : Readings) (d : Daemon)
    → Within (check_due m poll r poll.deadlines d).1
unfolding check_due debounce issue_wake
check_due-Within m poll r d =
    let checked = (due_now m poll r.check d).0 in
    if-Within (due_now m poll r.check d).1 (debounce m poll r checked)
      (checked, pending poll (sleep_next poll r.slept_at poll.deadlines))
      (if-Within (ltb 0 poll.cfg.wake_debounce_secs)
        (checked, pending poll (debouncing poll.cfg.wake_debounce_secs))
        (issue_wake m poll r checked) (omega arith) (answer_or_park-Within poll _ _))
      (timers-sleep_next poll r.slept_at poll.deadlines)

after_release-Within :
    (m : Machine) (poll : Poll) (r : Readings) (d : Daemon) (o : Option Text)
    → Within (after_release m poll r (d, o)).1
unfolding after_release end_wait
after_release-Within m poll r d none = check_due-Within m poll r d
after_release-Within m poll r d (some payload) = omega arith

wait_for-Within :
    (m : Machine) (sid : Text) (cfg : Config) (pt : Option ℕ) (clock : StartClock)
    (session : Option SessionRow) (d : Daemon)
    → Within (wait_for m sid cfg pt clock session d).1
unfolding wait_for end_wait
wait_for-Within m sid cfg pt clock none d = omega arith
wait_for-Within m sid cfg pt clock (some session) d = after_release-Within m _ clock.first _ _

handle_stop_wait-Within :
    (m : Machine) (ev : Event) (clock : StartClock) (d : Daemon)
    → Within (handle_stop_wait m ev clock d).1
unfolding handle_stop_wait
handle_stop_wait-Within m ev clock d = wait_for-Within m ev.session_id _ _ clock _ _

-- A poll does not run for ever by itself: whatever happens to the daemon in between, after as many timers
-- as it has deadlines and one more, for the debounce, it is answered or waits for a cancellation alone.
pub handle_stop_wait-settles :
    (m : Machine) (ev : Event) (clock : StartClock) (d : Daemon)
    (rs : List (Readings × (Daemon → Daemon)))
    → 1 + deadlines_of (handle_stop_wait m ev clock d).1 ≤ length rs
    → is_settled (run_out m rs (handle_stop_wait m ev clock d)).1 ≡ true
handle_stop_wait-settles m ev clock d rs h =
    run_out-settles m rs (handle_stop_wait m ev clock d)
      (omega (arith, handle_stop_wait-Within m ev clock d))
