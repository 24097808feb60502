-- ===== src/Polls.antt =====
-- crates/autofork-daemon/src/daemon.rs: parked polls. What a poll waits for, and the close of a session
-- whose poll was lost, as steps that interleave with events.
pub mod Stale
pub mod Due
pub mod Tests
use forksan.Prelude.{
  ℕ, ◌+◌, Bool, true, false, List, [], ◌∷◌, Option, none, some, Text, text_eq, nat_eq, ◌==◌,
  leb_i64, wrapping_add, if◌then◌else◌,
}
use forksan.Moments.{ForkMoment, idle, context}
use forksan.Store.{Store, SessionRow, SessionStatus, opened, closed, get_session, close_session}
use forksan.Planner.{Daemon}
use forksan.Events.{Event, Outside, Clock, handle_event}

-- `base + d as i64 <= up_to`, by sign
unfoldable pub elapsed_deadlines : ℕ → ℕ → List ℕ → List ForkMoment
elapsed_deadlines base up_to [] = []
elapsed_deadlines base up_to (d ∷ ds) =
    let rest = elapsed_deadlines base up_to ds in
    if leb_i64 (wrapping_add base d) up_to then idle d ∷ rest else rest

-- The moments that have passed: the gauge, if it is known, and the deadlines up to now.
unfoldable pub elapsed_moments : Option ℕ → ℕ → ℕ → List ℕ → ℕ → List ForkMoment
unfolding elapsed_deadlines
elapsed_moments none max_tokens base deadlines up_to = elapsed_deadlines base up_to deadlines
elapsed_moments (some pt) max_tokens base deadlines up_to =
    context pt (some max_tokens) ∷ elapsed_deadlines base up_to deadlines

-- `on_poll_lost` up to its sleep: the generation that the timer carries is the new `close_gen`.
unfoldable pub on_poll_lost : Text → Daemon → Daemon
on_poll_lost session_id d =
    let gen = wrapping_add d.close_gen 1 in
    record d {
      close_gen = gen;
      pending_close = λ s. if s == session_id then some gen else d.pending_close s;
    }

unfoldable pub is_gen : ℕ → Option ℕ → Bool
is_gen gen none = false
is_gen gen (some g) = g == gen

unfoldable pub close_if_open : Text → Option SessionRow → Store → Store
close_if_open session_id none s = s
close_if_open session_id (some row) s = elim row.status [
  | opened ↦ close_session session_id s
  | closed ↦ s
]

-- The rest of it, after the sleep.
unfoldable pub after_grace : Text → ℕ → Daemon → Daemon
unfolding is_gen close_if_open
after_grace session_id gen d =
    if is_gen gen (d.pending_close session_id)
    then record d {
      pending_close = λ s. if s == session_id then none else d.pending_close s;
      store = close_if_open session_id (get_session session_id d.store) d.store;
    }
    else d

-- What can happen, in any order.
pub data Action : Type 0 where
  received : Event → Clock → Action
  lost : Text → Action
  elapsed : Text → ℕ → Action

unfoldable pub act : Outside → Action → Daemon → Daemon
act outside (received ev clock) d = handle_event outside ev clock d
act outside (lost session_id) d = on_poll_lost session_id d
act outside (elapsed session_id gen) d = after_grace session_id gen d

unfoldable pub act_all : Outside → List Action → Daemon → Daemon
act_all outside [] d = d
act_all outside (a ∷ rest) d = act_all outside rest (act outside a d)
