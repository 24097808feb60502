-- ===== src/Server/Counts.antt =====
-- What the moves and the start of a poll do to the count of parked polls.
use mathlib.Core.Option
use forksan.Prelude.{
  ℕ, ◌≤◌, ◌==◌, text_eq, false, List, [], ◌∷◌, Option, none, some, Text, Bool-cases, inl, inr,
  ==_refl, ==_sound, ap, sym, refl, ◌∙◌, ◌≡◌, ◌+◌, if◌then◌else◌, arith, subst, find, find-some,
}
use forksan.Store.{
  SessionRow, PendingDep, SessionRecord, Store, get_session, is_session, row_to_session,
}
use forksan.Config.{Config}
use forksan.Events.{
  Event, EventKind, session_start, prompt_submit, stop, session_end, Outside, Clock, on_event,
  on_session_start, on_prompt_submit, on_session_end, cancel_wait, handle_event,
  clear_pending_close, touch_busy,
}
use forksan.Planner.{Daemon, note_wake_issued}
use forksan.Planner.Issue.{release_all, release_due}
use forksan.Waits.{
  Wait, pending, done, move, Move, elapsed, cancelled, shut_down, lost, Machine, end_wait, park,
  unpark, after_release, check_due, Poll, Readings, poll_of, register_wait, StartClock, wait_for,
  handle_stop_wait,
}
use forksan.Waits.Parked.{polls, IsCounted, IsCounted-check, move-IsCounted}
use forksan.Waits.Baseline.{Still, check_due-Still, move-Still}
use forksan.Server.Connection.{Connection, reading, polling, closed_connection}

-- One poll of the session, or none.
abbrev pub polls_of : Text → Wait → ℕ
polls_of sid (pending poll phase) = if sid == poll.session.session_id then 1 else 0
polls_of sid (done answer) = 0

abbrev pub polls_on : Text → Connection → ℕ
polls_on sid reading = 0
polls_on sid (polling id poll phase) = polls_of sid (pending poll phase)
polls_on sid closed_connection = 0

pub if_self : (sid : Text) → if◌then◌else◌ {A = ℕ} (sid == sid) 1 0 ≡ 1
if_self sid = rw (==_refl sid) refl

-- What is counted for one session is counted for each.
counted :
    (sid : Text) (d d' : Daemon) (w : Wait)
    → IsCounted sid d (d', w)
    → Still (λ poll. poll.session.session_id ≡ sid) w
    → (s : Text) → d'.parked s + (if s == sid then 1 else 0) ≡ d.parked s + polls_of s w
counted sid d d' w (own, others) still s = elim (Bool-cases (s == sid)) [
  | inl e ↦
      let same = ==_sound s sid e in
      rw same (
        ap (λ n. d'.parked sid + n) (if_self sid)
        ∙ (own ∙ ap (λ n. d.parked sid + n) (of_self w still)))
  | inr n ↦ rw n (ap (λ n. n + 0) (others s n) ∙ ap (λ n. d.parked s + n) (of_other w still n))
]
  where
    of_self :
        (w : Wait) → Still (λ poll. poll.session.session_id ≡ sid) w → polls w ≡ polls_of sid w
    of_self (pending poll phase) e = rw e (sym (if_self sid))
    of_self (done answer) e = refl

    of_other :
        (w : Wait)
        → Still (λ poll. poll.session.session_id ≡ sid) w
        → (s == sid) ≡ false
        → 0 ≡ polls_of s w
    of_other (pending poll phase) e n = rw (e, n) refl
    of_other (done answer) e n = refl

parks :
    (sid s : Text) (d : Daemon)
    → (park sid d).parked s ≡ d.parked s + if◌then◌else◌ {A = ℕ} (s == sid) 1 0
unfolding park
parks sid s d = ground arith

ends :
    (sid s : Text) (d d1 : Daemon)
    → d1.parked s ≡ d.parked s + if◌then◌else◌ {A = ℕ} (s == sid) 1 0
    → (unpark sid d1).parked s ≡ d.parked s + 0
unfolding unpark
ends sid s d d1 e = ground arith

move-Same :
    (P : Poll → Type 0) (m : Machine) (mv : Move) (w : Wait) (d : Daemon)
    → Still P w
    → Still P (move m mv w d).1
unfolding move end_wait
move-Same P m (elapsed r) w d p = move-Still P m r w d p
move-Same P m cancelled (pending poll phase) d p = tt
move-Same P m shut_down (pending poll phase) d p = tt
move-Same P m lost (pending poll phase) d p = tt
move-Same P m cancelled (done answer) d p = tt
move-Same P m shut_down (done answer) d p = tt
move-Same P m lost (done answer) d p = tt

-- A wait is counted.
abbrev pub Covers : Daemon → Wait → Type 0
Covers d w = (s : Text) → polls_of s w ≤ d.parked s

pub move-counts :
    (m : Machine) (mv : Move) (w : Wait) (d : Daemon)
    → Covers d w
    → (s : Text)
    → (move m mv w d).0.parked s + polls_of s w ≡ d.parked s + polls_of s (move m mv w d).1
move-counts m mv (pending poll phase) d h s =
    let sid = poll.session.session_id in
    counted sid d (move m mv (pending poll phase) d).0 (move m mv (pending poll phase) d).1
      (move-IsCounted m mv poll phase d (subst (λ n. n ≤ d.parked sid) (if_self sid) (h sid)))
      (move-Same (λ p. p.session.session_id ≡ sid) m mv (pending poll phase) d refl) s
move-counts m (elapsed r) (done answer) d h s = unfold move in refl
move-counts m cancelled (done answer) d h s = unfold move in refl
move-counts m shut_down (done answer) d h s = unfold move in refl
move-counts m lost (done answer) d h s = unfold move in refl

pub lost-polls :
    (s : Text) (m : Machine) (w : Wait) (d : Daemon) → polls_of s (move m lost w d).1 ≡ 0
unfolding move
lost-polls s m (pending poll phase) d = refl
lost-polls s m (done answer) d = refl

parked-release_all :
    (session : SessionRow) (t : ℕ) (deps : List PendingDep) (d : Daemon)
    → (release_all session t deps d).0.parked ≡ d.parked
unfolding release_all note_wake_issued
parked-release_all session t [] d = refl
parked-release_all session t (dep ∷ deps) d = refl

parked-release_due :
    (session : SessionRow) (t : ℕ) (d : Daemon) → (release_due session t d).0.parked ≡ d.parked
unfolding release_due
parked-release_due session t d = parked-release_all session t _ d

-- A poll that is answered at once leaves the counts as they were, and one that waits adds itself.
after_release-counts :
    (m : Machine) (poll : Poll) (r : Readings) (d d1 : Daemon) (o : Option Text)
    → d1.parked ≡ (park poll.session.session_id d).parked
    → (s : Text)
    → (after_release m poll r (d1, o)).0.parked s
      ≡ d.parked s + polls_of s (after_release m poll r (d1, o)).1
unfolding after_release
after_release-counts m poll r d d1 none e s =
    let sid = poll.session.session_id in
    let own : d1.parked sid ≡ d.parked sid + 1 =
      ap (λ f. f sid) e ∙ (unfold park in rw (==_refl sid) refl) in
    let here : d1.parked s ≡ d.parked s + if◌then◌else◌ {A = ℕ} (s == sid) 1 0 =
      ap (λ f. f s) e ∙ parks sid s d in
    let all =
      counted sid d1 (check_due m poll r poll.deadlines d1).0
        (check_due m poll r poll.deadlines d1).1
        (IsCounted-check m poll r poll.deadlines d1 (omega arith))
        (check_due-Still (λ p. p.session.session_id ≡ sid) m poll r poll.deadlines d1 refl) s in
    omega arith
after_release-counts m poll r d d1 (some payload) e s =
    let sid = poll.session.session_id in
    unfold end_wait unpark in ends sid s d d1 (ap (λ f. f s) e ∙ parks sid s d)

id_or : Text → Option SessionRow → Text
id_or sid none = sid
id_or sid (some r) = r.session_id

get_session-session_id :
    (sid : Text) (s : Store) (r : SessionRow) → get_session sid s ≡ some r → r.session_id ≡ sid
unfolding get_session row_to_session id_or
get_session-session_id sid s r h = row (find (is_session sid) s.sessions) refl h
  where
    row :
        (o : Option SessionRecord)
        → find (is_session sid) s.sessions ≡ o
        → Option.map row_to_session o ≡ some r
        → r.session_id ≡ sid
    row none e q = cc
    row (some x) e q =
        ap (λ o. id_or sid o) (sym q)
        ∙ ==_sound x.session_id sid ((find-some (is_session sid) s.sessions x e).1)

wait_for-counts :
    (m : Machine) (sid : Text) (cfg : Config) (pt : Option ℕ) (clock : StartClock)
    (o : Option SessionRow) (d : Daemon)
    → ((r : SessionRow) → o ≡ some r → r.session_id ≡ sid)
    → (s : Text)
    → (wait_for m sid cfg pt clock o (park sid d)).0.parked s
      ≡ d.parked s + polls_of s (wait_for m sid cfg pt clock o (park sid d)).1
unfolding wait_for end_wait poll_of
wait_for-counts m sid cfg pt clock none d h s = ends sid s d (park sid d) (parks sid s d)
wait_for-counts m sid cfg pt clock (some session) d h s =
    let poll = poll_of m cfg pt clock.now session in
    let (d1, o) = release_due session clock.released_at (park sid d) in
    after_release-counts m poll clock.first d d1 o
      (parked-release_due session clock.released_at (park sid d)
        ∙ ap (λ t. (park t d).parked) (sym (h session refl)))
      s

pub handle_stop_wait-counts :
    (m : Machine) (ev : Event) (clock : StartClock) (d : Daemon) (s : Text)
    → (handle_stop_wait m ev clock d).0.parked s
      ≡ d.parked s + polls_of s (handle_stop_wait m ev clock d).1
unfolding handle_stop_wait register_wait clear_pending_close touch_busy
handle_stop_wait-counts m ev clock d s =
    wait_for-counts m ev.session_id _ _ clock _ _
      (λ r e. get_session-session_id ev.session_id _ r e) s

parked-on_event :
    (k : EventKind) (outside : Outside) (ev : Event) (clock : Clock) (d : Daemon)
    → (on_event k outside ev clock d).parked ≡ d.parked
unfolding on_event on_session_start on_prompt_submit on_session_end cancel_wait
parked-on_event session_start outside ev clock d = refl
parked-on_event prompt_submit outside ev clock d = refl
parked-on_event session_end outside ev clock d = refl
parked-on_event stop outside ev clock d = refl

pub parked-handle_event :
    (outside : Outside) (ev : Event) (clock : Clock) (d : Daemon)
    → (handle_event outside ev clock d).parked ≡ d.parked
unfolding handle_event clear_pending_close touch_busy
parked-handle_event outside ev clock d = parked-on_event ev.event outside ev clock _
