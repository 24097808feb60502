-- ===== src/Server/Prune.antt =====
-- What pruning does to sessions that are polled.
use forksan.Prelude.{
  true, subst, false, ℕ, ◌≤◌, ◌≡◌, List, [], ◌∷◌, In, inl, inr, text_eq, arith, map-In, In-filter,
  ap, ◌∙◌, sym, subst,
}
use forksan.Store.{SessionRow, list_open_sessions}
use forksan.Planner.{Daemon}
use forksan.Waits.{Poll, Phase, is_parked}
use forksan.Reaper.{is_stale, cutoffs, prune}
use forksan.Reaper.Closed.{close_all-open}
use forksan.Server.{Service, stale_now, prune_sessions}
use forksan.Server.Connection.{Connection, polling}
use forksan.Server.Counts.{polls_on, if_self}
use forksan.Server.Balance.{polls_among, IsBalanced}

-- A connection that polls is counted.
polls_among-polling :
    (id : ℕ) (poll : Poll) (phase : Phase) (cs : List Connection)
    → In (polling id poll phase) cs
    → 1 ≤ polls_among poll.session.session_id cs
unfolding polls_among
polls_among-polling id poll phase [] m = absurd m
polls_among-polling id poll phase (c ∷ cs) (inl e) =
    let sid = poll.session.session_id in
    let one = ap (polls_on sid) (sym e) ∙ if_self sid in omega arith
polls_among-polling id poll phase (c ∷ cs) (inr m) =
    omega (arith, polls_among-polling id poll phase cs m)

is_stale-parked :
    (service : Service) (now : ℕ) (d : Daemon) (r : SessionRow)
    → 1 ≤ d.parked r.session_id
    → stale_now service now d r ≡ false
unfolding stale_now is_stale is_parked
is_stale-parked service now d r h = ground arith

-- While the counts are those of the connections, a session that a connection polls is not closed by
-- pruning, however long it has been idle.
pub prune_sessions-polling :
    (service : Service) (now : ℕ) (cs : List Connection) (d : Daemon) (id : ℕ) (poll : Poll)
    (phase : Phase) (r : SessionRow)
    → IsBalanced cs d
    → In (polling id poll phase) cs
    → r.session_id ≡ poll.session.session_id
    → In r (list_open_sessions d.store)
    → In r (list_open_sessions (prune_sessions service now d).0.store)
unfolding prune_sessions prune cutoffs
prune_sessions-polling service now cs d id poll phase r h polled e m =
    (close_all-open _ r d.store).1 (
      m,
      λ z.
          let (t, n, q) = map-In SessionRow.session_id r.session_id _ z in
          let (j, stale) = (In-filter _ t _).0 n in
          let one =
            subst (λ sid. 1 ≤ d.parked sid) (sym e ∙ q)
              (subst (λ k. 1 ≤ k) (sym (h poll.session.session_id))
                (polls_among-polling id poll phase cs polled)) in
          let hit : stale_now service now d t ≡ true = unfold stale_now in stale in
          cc (is_stale-parked service now d t one, hit),
    )
