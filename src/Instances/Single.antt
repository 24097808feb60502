-- ===== src/Instances/Single.antt =====
-- No two daemons serve, and no socket is removed from under a daemon that serves.
use forksan.Prelude.{
  ℕ, Bool, true, false, Option, none, some, ◌≡◌, ◌≢◌, refl, sym, ap, ◌∙◌, ◌==◌, nat_eq, ==_refl,
  ==_sound, if◌then◌else◌, Bool-cases, inl, inr, Option-cases,
}
use forksan.Instances.{
  Role, unborn, awaiting_spawn_lock, spawn_locked, not_answered, probing, cleared, released,
  returned, booting, daemon_locked, unlinked, serving, ended, World, become, Step, SpawnStep,
  DaemonStep, by_client, by_daemon, die, dropped, unless, IsInitial, Reachable, initial, next,
  take_spawn_lock, give_up, find_daemon, find_none, find_locked, probe, clear, release, spawn, fail,
  lock, exit, unlink, bind, stop,
}

-- The roles in which the daemon's lock is held.
abbrev pub locks : Role → Bool
locks probing = true
locks cleared = true
locks daemon_locked = true
locks unlinked = true
locks serving = true
locks r = false

abbrev serves : Role → Bool
serves serving = true
serves r = false

pub record IsSound (w : World) : Type 0 where
  pub held : (p : ℕ) → locks (w.roles p) ≡ true → w.daemon_lock ≡ some p
  pub answered : (p : ℕ) → w.listening ≡ some p → serves (w.roles p) ≡ true

-- One process changes its role, in a world whose locks and socket are as after the step.
become-IsSound :
    (w : World) (p : ℕ) (r : Role)
    → (locks r ≡ true → w.daemon_lock ≡ some p)
    → ((q : ℕ) → (q == p) ≡ false → locks (w.roles q) ≡ true → w.daemon_lock ≡ some q)
    → (w.listening ≡ some p → serves r ≡ true)
    → ((q : ℕ) → (q == p) ≡ false → w.listening ≡ some q → serves (w.roles q) ≡ true)
    → IsSound (become p r w)
unfolding become
become-IsSound w p r own others own_answer answers = record {
  held = λ q. elim (Bool-cases (q == p)) [
    | inl e ↦ rw e (λ k. own k ∙ ap some (sym (==_sound q p e)))
    | inr n ↦ rw n (others q n)
  ];
  answered = λ q k. elim (Bool-cases (q == p)) [
    | inl e ↦ rw e (own_answer (k ∙ ap some (==_sound q p e)))
    | inr n ↦ rw n (answers q n k)
  ];
}

serves-serving : (r : Role) → serves r ≡ true → r ≡ serving
serves-serving serving h = refl
serves-serving unborn h = cc
serves-serving awaiting_spawn_lock h = cc
serves-serving spawn_locked h = cc
serves-serving not_answered h = cc
serves-serving probing h = cc
serves-serving cleared h = cc
serves-serving released h = cc
serves-serving returned h = cc
serves-serving booting h = cc
serves-serving daemon_locked h = cc
serves-serving unlinked h = cc
serves-serving ended h = cc

serves-locks : (r : Role) → serves r ≡ true → locks r ≡ true
serves-locks r h = ap locks (serves-serving r h)

-- Whoever answers holds the daemon's lock.
answers-held : (w : World) (q : ℕ) → IsSound w → w.listening ≡ some q → w.daemon_lock ≡ some q
answers-held w q h e = h.held q (serves-locks (w.roles q) (h.answered q e))

-- A process without the daemon's lock that takes a role without it.
unlocked-IsSound :
    (w : World) (p : ℕ) (r : Role)
    → IsSound w
    → locks (w.roles p) ≡ false
    → locks r ≡ false
    → IsSound (become p r w)
unlocked-IsSound w p r h a b =
    become-IsSound w p r (λ k. cc) (λ q n. h.held q)
      (λ k. cc (serves-locks (w.roles p) (h.answered p k), a)) (λ q n. h.answered q)

-- A process that takes the lock while it is free.
locked-IsSound :
    (w : World) (p : ℕ) (r : Role)
    → IsSound w
    → w.daemon_lock ≡ none
    → IsSound (become p r (record w { daemon_lock = some p }))
locked-IsSound w p r h free =
    become-IsSound (record w { daemon_lock = some p }) p r (λ k. refl)
      (λ q n k. cc (h.held q k, free)) (λ k. cc (answers-held w p h k, free))
      (λ q n k. cc (answers-held w q h k, free))

-- While one process holds the lock, another one does not.
other :
    (w : World) (p q : ℕ)
    → IsSound w
    → locks (w.roles p) ≡ true
    → locks (w.roles q) ≡ true
    → (q == p) ≡ true
other w p q h a b = rw (same (h.held q b) (h.held p a)) (==_refl p)
  where
    same : w.daemon_lock ≡ some q → w.daemon_lock ≡ some p → q ≡ p
    same k m = cc

respawned : (w : World) (s : Option ℕ) → IsSound w → IsSound (record w { spawn_lock = s })
respawned w s h = record { held = h.held; answered = h.answered }

-- The holder of the lock removes the socket.
cleared-IsSound :
    (w : World) (p : ℕ) (r : Role)
    → IsSound w
    → locks (w.roles p) ≡ true
    → IsSound (become p r (record w { listening = none }))
cleared-IsSound w p r h a =
    become-IsSound (record w { listening = none }) p r (λ k. h.held p a) (λ q n. h.held q) (λ k. cc)
      (λ q n k. cc)

unborn-locks :
    (w : World) (c d : ℕ)
    → w.roles d ≡ unborn
    → locks ((become c returned (record w { spawn_lock = none })).roles d) ≡ false
unfolding become
unborn-locks w c d e = elim (Bool-cases (d == c)) [
  | inl same ↦ rw same refl
  | inr n ↦ rw n (ap locks e)
]

SpawnStep-IsSound : (v w : World) → SpawnStep v w → IsSound v → IsSound w
SpawnStep-IsSound _ _ (take_spawn_lock w c e f) h =
    unlocked-IsSound (record w { spawn_lock = some c }) c spawn_locked (respawned w (some c) h)
      (ap locks e) refl
SpawnStep-IsSound _ _ (give_up w c e) h = unlocked-IsSound w c returned h (ap locks e) refl
SpawnStep-IsSound _ _ (find_daemon w c p e f) h =
    unlocked-IsSound (record w { spawn_lock = none }) c returned (respawned w none h) (ap locks e)
      refl
SpawnStep-IsSound _ _ (find_none w c e f) h = unlocked-IsSound w c not_answered h (ap locks e) refl
SpawnStep-IsSound _ _ (find_locked w c p e f) h =
    unlocked-IsSound (record w { spawn_lock = none }) c returned (respawned w none h) (ap locks e)
      refl
SpawnStep-IsSound _ _ (probe w c e f) h = locked-IsSound w c probing h f
SpawnStep-IsSound _ _ (clear w c e) h = cleared-IsSound w c cleared h (ap locks e)
SpawnStep-IsSound _ _ (release w c e) h =
    become-IsSound (record w { daemon_lock = none }) c released (λ k. cc)
      (λ q n k. cc (other w c q h (ap locks e) k, n)) (λ k. cc (h.answered c k, ap serves e))
      (λ q n. h.answered q)
SpawnStep-IsSound _ _ (spawn w c d e f) h =
    unlocked-IsSound (become c returned (record w { spawn_lock = none })) d booting
      (unlocked-IsSound (record w { spawn_lock = none }) c returned (respawned w none h)
        (ap locks e) refl)
      (unborn-locks w c d f) refl
SpawnStep-IsSound _ _ (fail w c e) h =
    unlocked-IsSound (record w { spawn_lock = none }) c returned (respawned w none h) (ap locks e)
      refl

DaemonStep-IsSound : (v w : World) → DaemonStep v w → IsSound v → IsSound w
DaemonStep-IsSound _ _ (lock w d e f) h = locked-IsSound w d daemon_locked h f
DaemonStep-IsSound _ _ (exit w d p e f) h = unlocked-IsSound w d ended h (ap locks e) refl
DaemonStep-IsSound _ _ (unlink w d e) h = cleared-IsSound w d unlinked h (ap locks e)
DaemonStep-IsSound _ _ (bind w d e) h =
    become-IsSound (record w { listening = some d }) d serving (λ k. h.held d (ap locks e))
      (λ q n. h.held q) (λ k. refl) (λ q n k. absurd (elsewhere q d n k))
  where
    elsewhere : (q d : ℕ) → (q == d) ≡ false → some d ≢ some q
    elsewhere q d n k = let e : q ≡ d = cc in cc (ap (λ z. z == d) e, ==_refl d, n)
DaemonStep-IsSound _ _ (stop w d e) h =
    become-IsSound (record w { daemon_lock = none; listening = none }) d ended (λ k. cc)
      (λ q n k. cc (other w d q h (ap locks e) k, n)) (λ k. cc) (λ q n k. cc)

unless-some : (p q : ℕ) (o : Option ℕ) → unless p o ≡ some q → (o ≡ some q) × ((q == p) ≡ false)
unless-some p q none k = cc
unless-some p q (some r) k = elim (Bool-cases (r == p)) [
  | inl e ↦ cc (ap (λ c. if◌then◌else◌ {A = Option ℕ} c none (some r)) e, k)
  | inr n ↦
      let same : some r ≡ some q =
        sym (ap (λ c. if◌then◌else◌ {A = Option ℕ} c none (some r)) n) ∙ k in
      (same, ap (λ o. elim o [ none ↦ false | some z ↦ z == p ]) (sym same) ∙ n)
]

unless-keeps : (p q : ℕ) (o : Option ℕ) → o ≡ some q → (q == p) ≡ false → unless p o ≡ some q
unless-keeps p q o k n = ap (unless p) k ∙ ap (λ c. if◌then◌else◌ {A = Option ℕ} c none (some q)) n

die-IsSound : (w : World) (p : ℕ) → IsSound w → IsSound (become p ended (dropped p w))
unfolding dropped
die-IsSound w p h =
    become-IsSound (dropped p w) p ended (λ k. cc)
      (λ q n k. unless-keeps p q w.daemon_lock (h.held q k) n)
      (λ k. cc ((unless-some p p w.listening k).1, ==_refl p))
      (λ q n k. h.answered q (unless-some p q w.listening k).0)

step-IsSound : (v w : World) → Step v w → IsSound v → IsSound w
step-IsSound _ _ (by_client v w s) h = SpawnStep-IsSound v w s h
step-IsSound _ _ (by_daemon v w s) h = DaemonStep-IsSound v w s h
step-IsSound _ _ (die w p) h = die-IsSound w p h

initial-IsSound : (w : World) → IsInitial w → IsSound w
initial-IsSound w i = record {
  held = λ p k. elim (i.waiting p) [ inl e ↦ cc (ap locks e, k) | inr e ↦ cc (ap locks e, k) ];
  answered = λ p k. cc (i.silent, k);
}

Reachable-IsSound : (w : World) → Reachable w → IsSound w
Reachable-IsSound _ (initial w i) = initial-IsSound w i
Reachable-IsSound _ (next v w r s) = step-IsSound v w s (Reachable-IsSound v r)

-- However the command lines and the daemons that they start interleave, and wherever one of them dies, at most one daemon serves, whoever
-- answers at the socket's path serves, and a command line that is about to remove the socket finds that
-- nobody answers there, so that no daemon loses its socket while it serves.
pub Reachable-single :
    (w : World)
    → Reachable w
    → ((p q : ℕ) → w.roles p ≡ serving → w.roles q ≡ serving → p ≡ q)
      × ((p : ℕ) → w.listening ≡ some p → w.roles p ≡ serving)
      × ((c : ℕ) → w.roles c ≡ probing → w.listening ≡ none)
Reachable-single w r =
    let h = Reachable-IsSound w r in
    (
      λ p q a b. ==_sound p q (other w q p h (ap locks b) (ap locks a)),
      λ p k. serves-serving (w.roles p) (h.answered p k),
      λ c a. elim (Option-cases w.listening) [ inl e ↦ e | inr (q, e) ↦ absurd (taken h c q a e) ],
    )
  where
    taken : IsSound w → (c q : ℕ) → w.roles c ≡ probing → w.listening ≢ some q
    taken h c q a e =
        let same : q ≡ c =
          ==_sound q c (other w c q h (ap locks a) (serves-locks (w.roles q) (h.answered q e))) in
        cc (h.answered q e, ap (λ z. serves (w.roles z)) same, ap serves a)
