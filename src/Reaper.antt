-- ===== src/Reaper.antt =====
-- Closing sessions that nobody waits on: crates/autofork-daemon/src/sweep.rs, `session_reaper`, and
-- crates/autofork-daemon/src/server.rs, `is_stale` and `prune`.
pub mod Closed
pub mod Tests
use forksan.Prelude.{
  ℕ, ◌+◌, ◌-◌, ◌*◌, Bool, true, false, not, ◌&&◌, List, [], ◌∷◌, map, filter, Text, ltb, leb,
  ltb_i64, wrapping_mul, wrapping_sub,
}
use forksan.Store.{Store, SessionRow, list_open_sessions, close_session}

-- `timeout > 0 && idle >= timeout`, where `idle` is 0 when the clock went back; the timeout of a project comes from its configuration.
unfoldable pub is_timed_out : (Text → ℕ) → ℕ → SessionRow → Bool
is_timed_out session_timeout_secs t s =
    let timeout = session_timeout_secs s.project_root in
    ltb 0 timeout && leb timeout (t - s.last_activity)

unfoldable pub close_all : List Text → Store → Store
close_all [] s = s
close_all (sid ∷ sids) s = close_all sids (close_session sid s)

unfoldable pub cutoffs : (SessionRow → Bool) → Store → List Text
cutoffs p s = map SessionRow.session_id (filter p (list_open_sessions s))

-- One round of the loop of `session_reaper`, after its sleep.
unfoldable pub reap : (Text → ℕ) → ℕ → Store → Store
reap session_timeout_secs t s = close_all (cutoffs (is_timed_out session_timeout_secs t) s) s

-- `now - s.last_activity` and `2 * deadline as i64` wrap at 2 ^ 64 and are compared by sign.
unfoldable pub is_stale : (Text → Bool) → (Text → ℕ) → ℕ → SessionRow → Bool
is_stale is_parked default_idle_deadline_secs now s =
    let deadline = default_idle_deadline_secs s.project_root in
    not (is_parked s.session_id)
    && (ltb 0 deadline && ltb_i64 (wrapping_mul 2 deadline) (wrapping_sub now s.last_activity))

-- The sessions that are closed are the ones that `prune` reports.
unfoldable pub prune : (Text → Bool) → (Text → ℕ) → ℕ → Store → Store × List Text
prune is_parked default_idle_deadline_secs now s =
    let stale = cutoffs (is_stale is_parked default_idle_deadline_secs now) s in
    (close_all stale s, stale)
