-- ===== src/Instances.antt =====
-- crates/autofork/src/client.rs, `spawn_daemon_locked`, and crates/autofork-daemon/src/main.rs: command
-- lines that race to start a daemon, and the daemons that they start, as steps of processes that share two
-- file locks and a socket.
pub mod Single
pub mod Tests
use forksan.Prelude.{
  ◌⊎◌, ℕ, Bool, true, false, Option, none, some, ◌≡◌, ◌==◌, nat_eq, if◌then◌else◌,
}

-- Where a process is: in `spawn_daemon_locked`, or in the daemon's `main`.
pub data Role : Type 0 where
  unborn : Role
  awaiting_spawn_lock spawn_locked not_answered probing cleared released returned : Role
  booting daemon_locked unlinked serving ended : Role

-- Whom each lock belongs to, and which process answers at the socket's path.
pub record World : Type 0 where
  pub spawn_lock : Option ℕ
  pub daemon_lock : Option ℕ
  pub listening : Option ℕ
  pub roles : ℕ → Role

unfoldable pub become : ℕ → Role → World → World
become p r w = record w { roles = λ q. if q == p then r else w.roles q }

-- What a command line does in `spawn_daemon_locked`.
pub data SpawnStep : World → World → Type 0 where
  -- `flock_until`: the lock, or the deadline.
  take_spawn_lock :
      (w : World) (c : ℕ)
      → w.roles c ≡ awaiting_spawn_lock
      → w.spawn_lock ≡ none
      → SpawnStep w (become c spawn_locked (record w { spawn_lock = some c }))
  give_up :
      (w : World) (c : ℕ) → w.roles c ≡ awaiting_spawn_lock → SpawnStep w (become c returned w)
  -- The daemon may be up by now.
  find_daemon :
      (w : World) (c p : ℕ)
      → w.roles c ≡ spawn_locked
      → w.listening ≡ some p
      → SpawnStep w (become c returned (record w { spawn_lock = none }))
  find_none :
      (w : World) (c : ℕ)
      → w.roles c ≡ spawn_locked
      → w.listening ≡ none
      → SpawnStep w (become c not_answered w)
  -- `try_flock` on the daemon's lock.
  find_locked :
      (w : World) (c p : ℕ)
      → w.roles c ≡ not_answered
      → w.daemon_lock ≡ some p
      → SpawnStep w (become c returned (record w { spawn_lock = none }))
  probe :
      (w : World) (c : ℕ)
      → w.roles c ≡ not_answered
      → w.daemon_lock ≡ none
      → SpawnStep w (become c probing (record w { daemon_lock = some c }))
  -- `remove_file(paths.socket())`: nobody answers at the path any more.
  clear :
      (w : World) (c : ℕ)
      → w.roles c ≡ probing
      → SpawnStep w (become c cleared (record w { listening = none }))
  release :
      (w : World) (c : ℕ)
      → w.roles c ≡ cleared
      → SpawnStep w (become c released (record w { daemon_lock = none }))
  -- The daemon `d` is started, and the spawn lock dropped.
  spawn :
      (w : World) (c d : ℕ)
      → w.roles c ≡ released
      → w.roles d ≡ unborn
      → SpawnStep w (become d booting (become c returned (record w { spawn_lock = none })))
  -- The binary or the log is not there.
  fail :
      (w : World) (c : ℕ)
      → w.roles c ≡ released
      → SpawnStep w (become c returned (record w { spawn_lock = none }))

-- What the daemon does in `main` and `async_main`.
pub data DaemonStep : World → World → Type 0 where
  -- `try_lock` in `main`.
  lock :
      (w : World) (d : ℕ)
      → w.roles d ≡ booting
      → w.daemon_lock ≡ none
      → DaemonStep w (become d daemon_locked (record w { daemon_lock = some d }))
  exit :
      (w : World) (d p : ℕ)
      → w.roles d ≡ booting
      → w.daemon_lock ≡ some p
      → DaemonStep w (become d ended w)
  -- `async_main`: the stale socket is removed, and the new one bound.
  unlink :
      (w : World) (d : ℕ)
      → w.roles d ≡ daemon_locked
      → DaemonStep w (become d unlinked (record w { listening = none }))
  bind :
      (w : World) (d : ℕ)
      → w.roles d ≡ unlinked
      → DaemonStep w (become d serving (record w { listening = some d }))
  -- The end of a daemon that serves: the socket is removed.
  stop :
      (w : World) (d : ℕ)
      → w.roles d ≡ serving
      → DaemonStep w (become d ended (record w { daemon_lock = none; listening = none }))

-- A process that dies drops what it holds, and nobody answers for it.
abbrev pub unless : ℕ → Option ℕ → Option ℕ
unless p none = none
unless p (some q) = if q == p then none else some q

unfoldable pub dropped : ℕ → World → World
dropped p w = record w {
  spawn_lock = unless p w.spawn_lock;
  daemon_lock = unless p w.daemon_lock;
  listening = unless p w.listening;
}

pub data Step : World → World → Type 0 where
  by_client : (v w : World) → SpawnStep v w → Step v w
  by_daemon : (v w : World) → DaemonStep v w → Step v w
  die : (w : World) (p : ℕ) → Step w (become p ended (dropped p w))

-- At first nobody holds a lock or answers; some processes are about to start a daemon.
pub record IsInitial (w : World) : Type 0 where
  pub unlocked : w.daemon_lock ≡ none
  pub silent : w.listening ≡ none
  pub waiting : (p : ℕ) → (w.roles p ≡ unborn) ⊎ (w.roles p ≡ awaiting_spawn_lock)

pub data Reachable : World → Type 0 where
  initial : (w : World) → IsInitial w → Reachable w
  next : (v w : World) → Reachable v → Step v w → Reachable w
