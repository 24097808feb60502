-- ===== src/Waits/Refines.antt =====
-- daemon.rs, `handle_stop_wait`: what a poll promises, and that every move keeps the promise.
use forksan.Prelude.{
  ◌⊎◌, ℕ, ◌≡◌, ◌≢◌, refl, sym, ap, ◌∙◌, Bool, true, false, List, [], ◌∷◌, Option, none, some, Text,
  In, inl, inr, if◌then◌else◌, ltb,
}
use forksan.Store.{Store, SessionRow, is_latched}
use forksan.Schedule.{resolve_deps}
use forksan.Planner.Named.{IsNamed, issue-IsNamed}
use forksan.Planner.Once.{IsSelected, select_forks-IsSelected, IsSelected-latch_key}
use forksan.Wake.{DueFork, HeldFork, build_wake_payload, looks_like_continuation}
use forksan.Planner.{selected_fork, SelectedFork, Daemon, note_wake_issued}
use forksan.Planner.Issue.{build_wake, ids_of}
use forksan.Planner.Latches.{select_forks-open, build_wake-latches}
use forksan.Planner.Roots.{build_wake-looks_like_continuation}
use forksan.Polls.{on_poll_lost}
use forksan.Waits.{
  Machine, Poll, Phase, asleep, debouncing, parking, waited, wake, dropped, Wait, pending, done,
  Readings, Move, elapsed, cancelled, shut_down, lost, select_now, due_now, end_wait, unpark,
  moments_of, answer_or_park, issue_wake, debounce, check_due, on_elapsed, move,
}
use forksan.Waits.Quiet.{Quiet, Quiet-refl, Quiet-trans, select_now-Quiet, due_now-Quiet}

-- What the session sees of its poll.
pub data View : Type 0 where
  waiting unanswered : View
  woken : Text → View

abbrev pub view : Wait → View
view (pending poll phase) = waiting
view (done waited) = unanswered
view (done dropped) = unanswered
view (done (wake text)) = woken text

-- The latch of a fork is open in one store and closed in another.
pub record IsLatching (session : SessionRow) (s s' : Store) (f : SelectedFork) : Type 0 where
  pub key : Text
  pub keyed : f.latch_key ≡ some key
  pub open_before : is_latched session.session_id f.name key s ≡ false
  pub closed_after : is_latched session.session_id f.name key s' ≡ true

-- A wake from one store to another: its text is the payload for some forks, at least one, each selected
-- for a trigger of its own, named to run now or held, and latched under the key of its trigger.
pub record IsWake (session : SessionRow) (s s' : Store) (text : Text) : Type 0 where
  pub forks : List SelectedFork
  pub some_fork : forks ≢ []
  pub roots : List DueFork
  pub held : List HeldFork
  pub said : text ≡ build_wake_payload (ids_of session) roots held
  pub names : IsNamed forks roots held
  pub chosen : (f : SelectedFork) → In f forks → IsSelected session f
  pub latching : (f : SelectedFork) → In f forks → IsLatching session s s' f
  pub known : looks_like_continuation text ≡ true

-- The promise: a poll waits or gives up and stamps nothing, or it answers with a wake, once.
pub data Promise (session : SessionRow) : View → Store → View → Store → Type 0 where
  rest : {v : View} {s s' : Store} → Quiet s s' → Promise session v s v s'
  give_up : {s s' : Store} → Quiet s s' → Promise session waiting s unanswered s'
  answer :
      {s s' : Store} {text : Text}
      → IsWake session s s' text
      → Promise session waiting s (woken text) s'

-- What a poll has written quietly before does not matter.
Quiet-is_latched :
    (sid name key : Text) (s t : Store)
    → Quiet s t
    → is_latched sid name key t ≡ is_latched sid name key s
unfolding is_latched
Quiet-is_latched sid name key s t (more, e, f) = ap (is_latched sid name key) e

Quiet-IsWake :
    (session : SessionRow) (s t u : Store) (text : Text)
    → Quiet s t
    → IsWake session t u text
    → IsWake session s u text
Quiet-IsWake session s t u text q w = record {
  forks = w.forks;
  some_fork = w.some_fork;
  roots = w.roots;
  held = w.held;
  said = w.said;
  names = w.names;
  chosen = w.chosen;
  known = w.known;
  latching = λ f m.
      let l = w.latching f m in
      record {
        key = l.key;
        keyed = l.keyed;
        closed_after = l.closed_after;
        open_before = sym (Quiet-is_latched session.session_id f.name l.key s t q) ∙ l.open_before;
      };
}

abbrev Keeps : SessionRow → Store → Daemon × Wait → Type 0
Keeps session s (d, w) = Promise session waiting s (view w) d.store

Promise-after :
    {session : SessionRow} {v w : View} {s t u : Store}
    → Quiet s t
    → Promise session v t w u
    → Promise session v s w u
Promise-after {s} {t} {u} q (rest r) = rest (Quiet-trans s t u q r)
Promise-after {s} {t} {u} q (give_up r) = give_up (Quiet-trans s t u q r)
Promise-after {session} {s} {t} {u} q (answer {text} w) =
    answer (Quiet-IsWake session s t u text q w)

-- The text of a wake for some fork is known.
text_known :
    (o : Option Text) (selected : List SelectedFork) (payload : Text)
    → o ≡ some payload
    → (o ≡ none) × (selected ≡ [])
      ⊎ ((text : Text) × (o ≡ some text) × (looks_like_continuation text ≡ true) × (selected ≢ []))
    → looks_like_continuation payload ≡ true
text_known o selected payload e (inl (n, q)) = cc
text_known o selected payload e (inr (text, q, known, ne)) = cc

build_wake-Keeps :
    (poll : Poll) (selected : List SelectedFork) (t noted_at : ℕ) (d : Daemon) (s : Store)
    → Quiet s d.store
    → ((f : SelectedFork) → In f selected → IsSelected poll.session f)
    → ((f : SelectedFork) (key : Text)
        → In f selected
        → f.latch_key ≡ some key
        → is_latched poll.session.session_id f.name key s ≡ false)
    → Keeps poll.session s (answer_or_park poll (build_wake poll.session selected t noted_at d))
unfolding answer_or_park build_wake end_wait unpark note_wake_issued
build_wake-Keeps poll [] t noted_at d s q chosen open_before = rest q
build_wake-Keeps poll (x ∷ xs) t noted_at d s q chosen open_before =
    let deps = resolve_deps (x ∷ xs) in
    answer (record {
      forks = x ∷ xs;
      some_fork = λ e. cc;
      roots = _;
      held = _;
      said = refl;
      names = issue-IsNamed poll.session t (x ∷ xs) deps 0 (x ∷ xs) d.store;
      chosen = chosen;
      latching = λ f m.
          let (key, e) = IsSelected-latch_key poll.session f (chosen f m) in
          record {
            key = key;
            keyed = e;
            open_before = open_before f key m e;
            closed_after = build_wake-latches poll.session (x ∷ xs) t noted_at d f key m e;
          };
      known =
          text_known _ (x ∷ xs) _ refl
            (build_wake-looks_like_continuation poll.session (x ∷ xs) t noted_at d);
    })

issue_wake-Keeps :
    (m : Machine) (poll : Poll) (r : Readings) (d : Daemon)
    → Keeps poll.session d.store (issue_wake m poll r d)
unfolding issue_wake select_now
issue_wake-Keeps m poll r d =
    let moments = moments_of poll r.issue in
    build_wake-Keeps poll (select_now m poll r.issue d.store).1 r.stamped_at r.noted_at _ d.store
      (select_now-Quiet m poll r.issue d.store)
      (λ f i.
        select_forks-IsSelected m.files poll.session poll.cfg moments r.issue.roster_at
          r.issue.selected_at d.store f i)
      (λ f key i e.
        select_forks-open m.files poll.session poll.cfg moments r.issue.roster_at
          r.issue.selected_at d.store f key i e)

if-Keeps :
    (session : SessionRow) (s : Store) (c : Bool) (a b : Daemon × Wait)
    → Keeps session s a
    → Keeps session s b
    → Keeps session s (if c then a else b)
if-Keeps session s true a b p q = p
if-Keeps session s false a b p q = q

check_due-Keeps :
    (m : Machine) (poll : Poll) (r : Readings) (later : List ℕ) (d : Daemon)
    → Keeps poll.session d.store (check_due m poll r later d)
unfolding check_due debounce
check_due-Keeps m poll r later d =
    let checked = (due_now m poll r.check d).0 in
    let quiet = due_now-Quiet m poll r.check d in
    if-Keeps poll.session d.store (due_now m poll r.check d).1 (debounce m poll r checked) _
      (if-Keeps poll.session d.store (ltb 0 poll.cfg.wake_debounce_secs)
        (checked, pending poll (debouncing poll.cfg.wake_debounce_secs))
        (issue_wake m poll r checked) (rest quiet)
        (Promise-after quiet (issue_wake-Keeps m poll r checked)))
      (rest quiet)

-- Whatever ends its wait, a poll keeps its promise: as long as it waits, and when it is cancelled, shut
-- down or lost, also in the debounce, it stamps nothing, as only new forks that have not run come on the
-- roster; and its answer is the payload of a wake for at least one fork. The payload names exactly the
-- forks of the wake, each to run now or held; each was selected for a supported trigger, and the latch
-- of that trigger was open in the store before and is closed in the store after.
pub move-Promise :
    (m : Machine) (mv : Move) (poll : Poll) (phase : Phase) (d : Daemon)
    → Promise poll.session waiting d.store
        (view (move m mv (pending poll phase) d).1)
        (move m mv (pending poll phase) d).0.store
unfolding move on_elapsed end_wait unpark on_poll_lost
move-Promise m (elapsed r) poll (asleep wait later) d = check_due-Keeps m poll r later d
move-Promise m (elapsed r) poll (debouncing secs) d = issue_wake-Keeps m poll r d
move-Promise m (elapsed r) poll parking d = rest (Quiet-refl d.store)
move-Promise m cancelled poll phase d = give_up (Quiet-refl d.store)
move-Promise m shut_down poll phase d = give_up (Quiet-refl d.store)
move-Promise m lost poll phase d = give_up (Quiet-refl d.store)
