-- ===== src/Waits/Baseline.antt =====
-- daemon.rs, `handle_stop_wait`: from when a poll counts its deadlines.
use mathlib.Core.Option
use forksan.Prelude.{
  ℕ, ◌≡◌, refl, ap, ◌∙◌, Bool, true, false, List, [], ◌∷◌, Option, none, some, Text, if◌then◌else◌,
  ltb,
}
use forksan.Store.{
  upsert_session, set_last_activity, Store, SessionRow, get_session, set_pause_started_at_if_unset,
  coalesce,
}
use forksan.Store.Pauses.{get_session-set_pause_started_at_if_unset}
use forksan.Config.{Config}
use forksan.Planner.{Daemon}
use forksan.Events.{session_event, clear_pending_close, touch_busy, Event}
use forksan.Events.Session.{
  Pause, pause_of_row, pause_of, or_first, pause_of-upsert_session, pause_of-set_last_activity,
  ingest_transcript-kept,
}
use forksan.Waits.{
  Machine, Poll, asleep, debouncing, parking, Wait, pending, done, Readings, StartClock, elapsed,
  due_now, end_wait, answer_or_park, issue_wake, debounce, sleep_next, check_due, after_release,
  wait_for, baseline_or, poll_of, handle_stop_wait, on_elapsed, move,
}
use forksan.Waits.Ends.{run_out}

-- A poll that is still pending has `P`.
abbrev pub Still : (Poll → Type 0) → Wait → Type 0
Still P (pending poll phase) = P poll
Still P (done answer) = Unit

module _ (P : Poll → Type 0) where
  if-Still :
      (c : Bool) (a b : Daemon × Wait)
      → Still P a.1
      → Still P b.1
      → Still P (if◌then◌else◌ {A = Daemon × Wait} c a b).1
  if-Still true a b p q = p
  if-Still false a b p q = q

  answer-Still :
      (poll : Poll) (d : Daemon) (o : Option Text) → P poll → Still P (answer_or_park poll (d, o)).1
  unfolding answer_or_park end_wait
  answer-Still poll d none p = p
  answer-Still poll d (some payload) p = tt

  pub check_due-Still :
      (m : Machine) (poll : Poll) (r : Readings) (later : List ℕ) (d : Daemon)
      → P poll
      → Still P (check_due m poll r later d).1
  unfolding check_due debounce issue_wake
  check_due-Still m poll r later d p =
      let checked = (due_now m poll r.check d).0 in
      if-Still (due_now m poll r.check d).1 (debounce m poll r checked)
        (checked, pending poll (sleep_next poll r.slept_at later))
        (if-Still (ltb 0 poll.cfg.wake_debounce_secs)
          (checked, pending poll (debouncing poll.cfg.wake_debounce_secs))
          (issue_wake m poll r checked) p (answer-Still poll _ _ p))
        p

  pub move-Still :
      (m : Machine) (r : Readings) (w : Wait) (d : Daemon)
      → Still P w
      → Still P (move m (elapsed r) w d).1
  unfolding move on_elapsed issue_wake
  move-Still m r (pending poll (asleep wait later)) d p = check_due-Still m poll r later d p
  move-Still m r (pending poll (debouncing secs)) d p = answer-Still poll _ _ p
  move-Still m r (pending poll parking) d p = p
  move-Still m r (done answer) d p = tt

  run_out-Still :
      (m : Machine) (rs : List (Readings × (Daemon → Daemon))) (r : Daemon × Wait)
      → Still P r.1
      → Still P (run_out m rs r).1
  unfolding run_out
  run_out-Still m [] (d, w) p = p
  run_out-Still m ((readings, others) ∷ rs) (d, w) p =
      run_out-Still m rs (move m (elapsed readings) w (others d))
        (move-Still m readings w (others d) p)

abbrev pub started_or : ℕ → Pause → ℕ
started_or now p = baseline_or now p.1

abbrev with_start : ℕ → Pause → Pause
with_start now p = (p.0, some (started_or now p))

coalesce-baseline : (now : ℕ) (o : Option ℕ) → coalesce o (some now) ≡ some (baseline_or now o)
coalesce-baseline now none = refl
coalesce-baseline now (some b) = refl

pause_of-start :
    (sid : Text) (now : ℕ) (s : Store) (p : Pause)
    → pause_of sid s ≡ some p
    → pause_of sid (set_pause_started_at_if_unset sid now s) ≡ some (with_start now p)
unfolding pause_of
pause_of-start sid now s p h = row (get_session sid s) refl h
  where
    row :
        (o : Option SessionRow)
        → get_session sid s ≡ o
        → Option.map pause_of_row o ≡ some p
        → Option.map pause_of_row (get_session sid (set_pause_started_at_if_unset sid now s))
          ≡ some (with_start now p)
    row none e q = cc
    row (some r) e q =
        ap (Option.map pause_of_row) (get_session-set_pause_started_at_if_unset sid now s r e)
        ∙ (ap (λ o. some (r.pause_epoch, o)) (coalesce-baseline now r.pause_started_at)
            ∙ ap (Option.map (with_start now)) q)

after_release-Still :
    (P : Poll → Type 0) (m : Machine) (poll : Poll) (r : Readings) (d : Daemon) (o : Option Text)
    → P poll
    → Still P (after_release m poll r (d, o)).1
unfolding after_release end_wait
after_release-Still P m poll r d none p = check_due-Still P m poll r poll.deadlines d p
after_release-Still P m poll r d (some payload) p = tt

-- The baseline is the one of the row that is read.
wait_for-baseline :
    (m : Machine) (sid : Text) (cfg : Config) (pt : Option ℕ) (clock : StartClock)
    (o : Option SessionRow) (d : Daemon) (epoch b : ℕ)
    → Option.map pause_of_row o ≡ some (epoch, some b)
    → Still (λ poll. poll.baseline ≡ b) (wait_for m sid cfg pt clock o d).1
unfolding wait_for end_wait poll_of
wait_for-baseline m sid cfg pt clock none d epoch b h = tt
wait_for-baseline m sid cfg pt clock (some session) d epoch b h =
    after_release-Still (λ poll. poll.baseline ≡ b) m (poll_of m cfg pt clock.now session)
      clock.first _ _ (ap (λ o. elim o [ none ↦ b | some p ↦ started_or clock.now p ]) h)

-- The deadlines of a poll are counted from the first Stop of the pause, also by a later Stop in the same
-- pause, such as that of a wake's own turn, whatever the transcript brings and whatever happens while the
-- poll waits.
pub handle_stop_wait-baseline :
    (m : Machine) (ev : Event) (clock : StartClock) (d : Daemon)
    (rs : List (Readings × (Daemon → Daemon)))
    → Still
        (λ poll. poll.baseline ≡ started_or clock.now (or_first (pause_of ev.session_id d.store)))
        (run_out m rs (handle_stop_wait m ev clock d)).1
unfolding handle_stop_wait pause_of session_event clear_pending_close touch_busy
handle_stop_wait-baseline m ev clock d rs =
    let sid = ev.session_id in
    let first = or_first (pause_of sid d.store) in
    let known = upsert_session (session_event ev) clock.now d.store in
    let seen = set_last_activity sid clock.now known in
    run_out-Still _ m rs _ (
      wait_for-baseline m sid _ _ clock _ _ first.0 (started_or clock.now first) (
        (ingest_transcript-kept m.outside ev clock.ingested
          (set_pause_started_at_if_unset sid clock.now seen)).0
        ∙ pause_of-start sid clock.now seen first (
            pause_of-set_last_activity sid clock.now known
            ∙ pause_of-upsert_session (session_event ev) clock.now d.store)))
