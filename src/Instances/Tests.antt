-- ===== src/Instances/Tests.antt =====
-- Two command lines, of which one starts a daemon and the other takes the spawn lock after it.
use forksan.Prelude.{
  ltb, ◌⊎◌, inl, inr, Bool-cases, ℕ, none, some, ◌≡◌, nat_eq, if◌then◌else◌, refl,
}
use forksan.Instances.{
  unborn, awaiting_spawn_lock, spawn_locked, not_answered, probing, cleared, released, returned,
  booting, daemon_locked, unlinked, serving, World, become, by_client, by_daemon, Reachable,
  initial, next, take_spawn_lock, find_none, probe, clear, release, spawn, lock, unlink, bind,
}
use forksan.Instances.Single.{Reachable-single}

abbrev w0 : World
w0 = record {
  spawn_lock = none;
  daemon_lock = none;
  listening = none;
  roles = λ p. if ltb p 3 then awaiting_spawn_lock else unborn;
}

w0-waiting : (p : ℕ) → (w0.roles p ≡ unborn) ⊎ (w0.roles p ≡ awaiting_spawn_lock)
w0-waiting p = elim (Bool-cases (ltb p 3)) [ inl e ↦ rw e (inr refl) | inr e ↦ rw e (inl refl) ]

abbrev w1 : World
w1 = become 1 spawn_locked (record w0 { spawn_lock = some 1 })

abbrev w2 : World
w2 = become 1 not_answered w1

abbrev w3 : World
w3 = become 1 probing (record w2 { daemon_lock = some 1 })

abbrev w4 : World
w4 = become 1 cleared (record w3 { listening = none })

abbrev w5 : World
w5 = become 1 released (record w4 { daemon_lock = none })

abbrev w6 : World
w6 = become 3 booting (become 1 returned (record w5 { spawn_lock = none }))

abbrev w7 : World
w7 = become 2 spawn_locked (record w6 { spawn_lock = some 2 })

abbrev w8 : World
w8 = become 3 daemon_locked (record w7 { daemon_lock = some 3 })

abbrev w9 : World
w9 = become 3 unlinked (record w8 { listening = none })

abbrev w10 : World
w10 = become 3 serving (record w9 { listening = some 3 })

w4-Reachable : Reachable w4
unfolding become
w4-Reachable =
    next w3 _
      (next w2 _
        (next w1 _
          (next w0 _ (initial w0 (record { unlocked = refl; silent = refl; waiting = w0-waiting }))
            (by_client w0 _ (take_spawn_lock w0 1 refl refl)))
          (by_client w1 _ (find_none w1 1 refl refl)))
        (by_client w2 _ (probe w2 1 refl refl)))
      (by_client w3 _ (clear w3 1 refl))

w7-Reachable : Reachable w7
unfolding become
w7-Reachable =
    next w6 _
      (next w5 _ (next w4 _ w4-Reachable (by_client w4 _ (release w4 1 refl)))
        (by_client w5 _ (spawn w5 1 3 refl refl)))
      (by_client w6 _ (take_spawn_lock w6 2 refl refl))

w10-Reachable : Reachable w10
unfolding become
w10-Reachable =
    next w9 _
      (next w8 _ (next w7 _ w7-Reachable (by_daemon w7 _ (lock w7 3 refl refl)))
        (by_daemon w8 _ (unlink w8 3 refl)))
      (by_daemon w9 _ (bind w9 3 refl))

Reachable-single_example :
    ((p q : ℕ) → w10.roles p ≡ serving → w10.roles q ≡ serving → p ≡ q)
    × ((p : ℕ) → w10.listening ≡ some p → w10.roles p ≡ serving)
    × ((c : ℕ) → w10.roles c ≡ probing → w10.listening ≡ none)
Reachable-single_example = Reachable-single w10 w10-Reachable
