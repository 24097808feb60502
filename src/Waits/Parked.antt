-- ===== src/Waits/Parked.antt =====
-- daemon.rs, `ParkGuard`: the count of a session's parked polls.
use forksan.Prelude.{
  ℕ, ◌+◌, ◌≤◌, ◌≡◌, refl, ap, ◌∙◌, Bool, true, false, List, [], ◌∷◌, Option, none, some, Text,
  arith, Bool-cases, inl, inr, if◌then◌else◌, ltb, text_eq, ==_refl, ◌==◌, is_empty,
}
use forksan.Planner.{SelectedFork, Daemon, note_wake_issued}
use forksan.Planner.Issue.{build_wake}
use forksan.Polls.{on_poll_lost}
use forksan.Waits.{
  Machine, Poll, Phase, asleep, debouncing, parking, Answer, waited, wake, dropped, Wait, pending,
  done, Reading, Readings, Move, elapsed, cancelled, shut_down, lost, due_now, end_wait, unpark,
  moments_of, answer_or_park, issue_wake, debounce, sleep_next, check_due, on_elapsed, move,
}

-- How many polls of its session a wait counts for.
abbrev pub polls : Wait → ℕ
polls (pending poll phase) = 1
polls (done answer) = 0

-- The session's count goes down by one exactly if the poll has ended, and no other count changes.
abbrev pub IsCounted : Text → Daemon → Daemon × Wait → Type 0
IsCounted sid d (d', w) =
    (d'.parked sid + 1 ≡ d.parked sid + polls w)
    × ((s : Text) → (s == sid) ≡ false → d'.parked s ≡ d.parked s)

IsCounted-end :
    (sid : Text) (answer : Answer) (d d' : Daemon)
    → 1 ≤ d.parked sid
    → d'.parked ≡ d.parked
    → IsCounted sid d (end_wait sid answer d')
unfolding end_wait unpark
IsCounted-end sid answer d d' h e = (
  rw (==_refl sid) (let q : d'.parked sid ≡ d.parked sid = ap (λ f. f sid) e in omega arith),
  λ s n. rw n (ap (λ f. f s) e),
)

IsCounted-pending :
    (sid : Text) (poll : Poll) (phase : Phase) (d d' : Daemon)
    → d'.parked ≡ d.parked
    → IsCounted sid d (d', pending poll phase)
IsCounted-pending sid poll phase d d' e = (ap (λ f. f sid + 1) e, λ s n. ap (λ f. f s) e)

if-IsCounted :
    (sid : Text) (c : Bool) (d : Daemon) (a b : Daemon × Wait)
    → IsCounted sid d a
    → IsCounted sid d b
    → IsCounted sid d (if c then a else b)
if-IsCounted sid true d a b p q = p
if-IsCounted sid false d a b p q = q

parked-build_wake :
    (poll : Poll) (selected : List SelectedFork) (t noted_at : ℕ) (d : Daemon)
    → (build_wake poll.session selected t noted_at d).0.parked ≡ d.parked
unfolding build_wake note_wake_issued
parked-build_wake poll [] t noted_at d = refl
parked-build_wake poll (x ∷ xs) t noted_at d = refl

parked-due_now :
    (m : Machine) (poll : Poll) (r : Reading) (d : Daemon)
    → (due_now m poll r d).0.parked ≡ d.parked
unfolding due_now
parked-due_now m poll r d = elim (Bool-cases (is_empty (moments_of poll r))) [
  | inl e ↦ rw e refl
  | inr e ↦ rw e refl
]

IsCounted-answer :
    (poll : Poll) (d : Daemon) (r : Daemon × Option Text)
    → 1 ≤ d.parked poll.session.session_id
    → r.0.parked ≡ d.parked
    → IsCounted poll.session.session_id d (answer_or_park poll r)
unfolding answer_or_park
IsCounted-answer poll d (d', none) h e = IsCounted-pending _ poll parking d d' e
IsCounted-answer poll d (d', some payload) h e =
    IsCounted-end poll.session.session_id (wake payload) d d' h e

IsCounted-issue :
    (m : Machine) (poll : Poll) (r : Readings) (d d' : Daemon)
    → 1 ≤ d.parked poll.session.session_id
    → d'.parked ≡ d.parked
    → IsCounted poll.session.session_id d (issue_wake m poll r d')
unfolding issue_wake
IsCounted-issue m poll r d d' h e =
    IsCounted-answer poll d _ h (parked-build_wake poll _ r.stamped_at r.noted_at _ ∙ e)

pub IsCounted-check :
    (m : Machine) (poll : Poll) (r : Readings) (later : List ℕ) (d : Daemon)
    → 1 ≤ d.parked poll.session.session_id
    → IsCounted poll.session.session_id d (check_due m poll r later d)
unfolding check_due debounce
IsCounted-check m poll r later d h =
    let sid = poll.session.session_id in
    let checked = (due_now m poll r.check d).0 in
    let same = parked-due_now m poll r.check d in
    if-IsCounted sid (due_now m poll r.check d).1 d (debounce m poll r checked) _
      (if-IsCounted sid (ltb 0 poll.cfg.wake_debounce_secs) d
        (checked, pending poll (debouncing poll.cfg.wake_debounce_secs))
        (issue_wake m poll r checked)
        (IsCounted-pending sid poll (debouncing poll.cfg.wake_debounce_secs) d checked same)
        (IsCounted-issue m poll r d checked h same))
      (IsCounted-pending sid poll (sleep_next poll r.slept_at later) d checked same)

-- While a poll is counted, each move keeps the count right: it goes down by one exactly when the poll ends,
-- by an answer, a cancellation, a shutdown or a lost connection, and no other session's count changes.
pub move-IsCounted :
    (m : Machine) (mv : Move) (poll : Poll) (phase : Phase) (d : Daemon)
    → 1 ≤ d.parked poll.session.session_id
    → IsCounted poll.session.session_id d (move m mv (pending poll phase) d)
unfolding move on_elapsed on_poll_lost unpark end_wait
move-IsCounted m (elapsed r) poll (asleep wait later) d h = IsCounted-check m poll r later d h
move-IsCounted m (elapsed r) poll (debouncing secs) d h = IsCounted-issue m poll r d d h refl
move-IsCounted m (elapsed r) poll parking d h = IsCounted-pending _ poll parking d d refl
move-IsCounted m cancelled poll phase d h = IsCounted-end _ waited d d h refl
move-IsCounted m shut_down poll phase d h = IsCounted-end _ waited d d h refl
move-IsCounted m lost poll phase d h =
    IsCounted-end _ dropped d (on_poll_lost poll.session.session_id d) h refl
