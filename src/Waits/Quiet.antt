-- ===== src/Waits/Quiet.antt =====
-- daemon.rs, `due_now`: what an evaluation writes.
use forksan.Prelude.{
  ℕ, ◌≡◌, refl, sym, ap, ◌∙◌, Bool, true, false, List, [], ◌∷◌, ◌++◌, none, Text, All, Bool-cases,
  inl, inr, append_assoc, append-nil, is_empty, if◌then◌else◌, any,
}
use forksan.Sql.{insert_or_ignore}
use forksan.Store.{Store, RosterRecord, queue_fork, is_rostered}
use forksan.Discovery.{ForkEntry}
use forksan.Planner.{Daemon}
use forksan.Planner.Select.{select_forks, refresh_roster, queue_all, visible_forks}
use forksan.Waits.{Machine, Poll, Reading, select_now, due_now, moments_of}

-- Nothing but new forks on the roster, which have not run: no run, latch, throttle stamp, spawn, held
-- dependent or session differs.
abbrev pub Quiet : Store → Store → Type 0
Quiet s s' =
    (more : List RosterRecord) × (s' ≡ record s { fork_roster = s.fork_roster ++ more })
    × All (λ r. RosterRecord.ran_at r ≡ none) more

pub Quiet-refl : (s : Store) → Quiet s s
Quiet-refl s =
    ([], ap (λ rows. record s { fork_roster = rows }) (sym (append-nil s.fork_roster)), tt)

All-append :
    (P : RosterRecord → Type 0) (xs ys : List RosterRecord) → All P xs → All P ys → All P (xs ++ ys)
All-append P [] ys f g = g
All-append P (x ∷ xs) ys f g = (f.0, All-append P xs ys f.1 g)

pub Quiet-trans : (s t u : Store) → Quiet s t → Quiet t u → Quiet s u
Quiet-trans s t u (xs, p, f) (ys, q, g) = (
  xs ++ ys,
  q
      ∙ (ap (λ (w : Store). record w { fork_roster = w.fork_roster ++ ys }) p
          ∙ ap (λ rows. record s { fork_roster = rows }) (append_assoc s.fork_roster xs ys)),
  All-append _ xs ys f g,
)

insert_new :
    (c : Bool) (row : RosterRecord) (s : Store)
    → row.ran_at ≡ none
    → Quiet s (record s {
      fork_roster =
          (if◌then◌else◌ {A = List RosterRecord × Bool} c
            (s.fork_roster, false)
            (s.fork_roster ++ (row ∷ []), true)).0;
    })
insert_new true row s h = Quiet-refl s
insert_new false row s h = (row ∷ [], refl, (h, tt))

queue_fork-Quiet :
    (sid name path : Text) (t : ℕ) (s : Store) → Quiet s (queue_fork sid name path t s).0
unfolding queue_fork insert_or_ignore
queue_fork-Quiet sid name path t s = insert_new (any (is_rostered sid name) s.fork_roster) _ s refl

queue_all-Quiet :
    (sid : Text) (t : ℕ) (es : List ForkEntry) (s : Store) → Quiet s (queue_all sid t es s)
unfolding queue_all
queue_all-Quiet sid t [] s = Quiet-refl s
queue_all-Quiet sid t (e ∷ es) s =
    Quiet-trans s _ _ (queue_fork-Quiet sid e.name e.path t s)
      (queue_all-Quiet sid t es (queue_fork sid e.name e.path t s).0)

pub select_now-Quiet :
    (m : Machine) (poll : Poll) (r : Reading) (s : Store) → Quiet s (select_now m poll r s).0
unfolding select_now select_forks refresh_roster
select_now-Quiet m poll r s =
    queue_all-Quiet poll.session.session_id r.roster_at (visible_forks m.files poll.session.cwd) s

pub due_now-Quiet :
    (m : Machine) (poll : Poll) (r : Reading) (d : Daemon)
    → Quiet d.store (due_now m poll r d).0.store
unfolding due_now
due_now-Quiet m poll r d = elim (Bool-cases (is_empty (moments_of poll r))) [
  | inl e ↦ rw e (Quiet-refl d.store)
  | inr e ↦ rw e (select_now-Quiet m poll r d.store)
]
