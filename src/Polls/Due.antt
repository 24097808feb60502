-- ===== src/Polls/Due.antt =====
-- The close of a session whose poll was lost, when its timer runs out.
use mathlib.Core.Option
use forksan.Prelude.{
  ℕ, ◌&&◌, ==_sound, arith, ◌≡◌, refl, ap, ◌∙◌, sym, Bool, true, false, List, [], ◌∷◌, Option, none,
  some, Text, text_eq, nat_eq, ◌==◌, ==_refl, inl, inr, Bool-cases, All, find, if◌then◌else◌,
}
use forksan.Sql.Laws.{find-update_where_self, updated}
use forksan.Store.{
  Store, SessionRecord, SessionRow, SessionStatus, opened, closed, get_session, close_session,
  is_session, row_to_session,
}
use forksan.Planner.{Daemon}
use forksan.Events.{Outside}
use forksan.Polls.{
  on_poll_lost, after_grace, is_gen, close_if_open, Action, received, lost, elapsed, act, act_all,
}
use forksan.Polls.Stale.{handle_event-pending_close}

-- An action that concerns the session and the timer of that generation: an event or a lost poll of the
-- session, or that timer itself.
unfoldable pub disturbs : Text → ℕ → Action → Bool
disturbs sid gen (received ev clock) = sid == ev.session_id
disturbs sid gen (lost session_id) = sid == session_id
disturbs sid gen (elapsed session_id g) = sid == session_id && g == gen

carried : (g gen : ℕ) → is_gen g (some gen) ≡ true → g ≡ gen
unfolding is_gen
carried g gen h = sym (==_sound gen g h)

act-pending_close :
    (outside : Outside) (sid : Text) (gen : ℕ) (a : Action) (d : Daemon)
    → disturbs sid gen a ≡ false
    → d.pending_close sid ≡ some gen
    → (act outside a d).pending_close sid ≡ some gen
unfolding act on_poll_lost after_grace disturbs
act-pending_close outside sid gen (received ev clock) d n h =
    rw (handle_event-pending_close outside ev clock d sid, n) h
act-pending_close outside sid gen (lost u) d n h = rw n h
act-pending_close outside sid gen (elapsed u g) d n h =
    elim (Bool-cases (is_gen g (d.pending_close u))) [
      | inl due ↦ rw due (elim (Bool-cases (sid == u)) [
        | inl own ↦
            let same : g ≡ gen =
              carried g gen
                (ap (is_gen g) (sym h ∙ ap d.pending_close (==_sound sid u own)) ∙ due) in
            cc (n, itself own same)
        | inr other ↦ rw other h
      ])
      | inr old ↦ rw old h
    ]
  where
    itself : (sid == u) ≡ true → g ≡ gen → (sid == u && g == gen) ≡ true
    itself own same = ground (arith, own, same)

act_all-pending_close :
    (outside : Outside) (sid : Text) (gen : ℕ) (between : List Action) (d : Daemon)
    → All (λ a. disturbs sid gen a ≡ false) between
    → d.pending_close sid ≡ some gen
    → (act_all outside between d).pending_close sid ≡ some gen
unfolding act_all
act_all-pending_close outside sid gen [] d n h = h
act_all-pending_close outside sid gen (a ∷ between) d n h =
    act_all-pending_close outside sid gen between (act outside a d) n.1
      (act-pending_close outside sid gen a d n.0 h)

on_poll_lost-pending_close :
    (sid : Text) (d : Daemon)
    → (on_poll_lost sid d).pending_close sid ≡ some (on_poll_lost sid d).close_gen
unfolding on_poll_lost
on_poll_lost-pending_close sid d = rw (==_refl sid) refl

is_gen-some : (gen : ℕ) (o : Option ℕ) → o ≡ some gen → is_gen gen o ≡ true
unfolding is_gen
is_gen-some gen o e = ap (is_gen gen) e ∙ ==_refl gen

close_session-status :
    (sid : Text) (s : Store) (r : SessionRow)
    → get_session sid (close_session sid s) ≡ some r
    → r.status ≡ closed
unfolding get_session close_session row_to_session
close_session-status sid s r e = shut (find (is_session sid) s.sessions) (
    sym (
      ap (Option.map row_to_session) (
        find-update_where_self (is_session sid) (λ x. record x { status = closed }) s.sessions
          (λ x h. h)))
    ∙ e)
  where
    shut :
        (o : Option SessionRecord)
        → Option.map row_to_session (updated (λ x. record x { status = closed }) o) ≡ some r
        → r.status ≡ closed
    shut none q = cc
    shut (some x) q = ground (arith, q)

shut_by_status : Text → Store → SessionStatus → Store
shut_by_status sid s st = elim st [ opened ↦ close_session sid s | closed ↦ s ]

-- Afterwards a known row of the session is closed: by now, or since before.
close_known-status :
    (sid : Text) (s : Store) (x r : SessionRow) (st : SessionStatus)
    → get_session sid s ≡ some x
    → x.status ≡ st
    → get_session sid (shut_by_status sid s st) ≡ some r
    → r.status ≡ closed
unfolding shut_by_status
close_known-status sid s x r opened q h e = close_session-status sid s r e
close_known-status sid s x r closed q h e =
    let same : some x ≡ some r = sym q ∙ e in ground (arith, same, h)

close_if_open-status :
    (sid : Text) (s : Store) (r : SessionRow)
    → get_session sid (close_if_open sid (get_session sid s) s) ≡ some r
    → r.status ≡ closed
unfolding close_if_open shut_by_status
close_if_open-status sid s r e = by_row (get_session sid s) refl
  where
    by_row : (o : Option SessionRow) → get_session sid s ≡ o → r.status ≡ closed
    by_row none q = cc
    by_row (some x) q =
        close_known-status sid s x r x.status q refl (unfold shut_by_status in closing)
      where
        closing :
            get_session sid (elim x.status [ opened ↦ close_session sid s | closed ↦ s ]) ≡ some r
        closing =
            ap (λ o. get_session sid (unfold close_if_open in close_if_open sid o s)) (sym q) ∙ e

-- When the poll of a session is lost and neither an event nor another lost poll of that session comes in
-- until its timer runs out, the row of the session, if the store has one, is closed by then, whatever
-- happens in between: events, lost polls and timers of other sessions, and timers of this session that
-- an earlier poll has left behind.
pub act_all-after_grace :
    (outside : Outside) (sid : Text) (between : List Action) (d : Daemon) (r : SessionRow)
    → All (λ a. disturbs sid (on_poll_lost sid d).close_gen a ≡ false) between
    → get_session sid
        (after_grace sid
          (on_poll_lost sid d).close_gen
          (act_all outside between (on_poll_lost sid d))).store
      ≡ some r
    → r.status ≡ closed
unfolding after_grace
act_all-after_grace outside sid between d r undisturbed known =
    let gen = (on_poll_lost sid d).close_gen in
    let final = act_all outside between (on_poll_lost sid d) in
    let due = is_gen-some gen (final.pending_close sid) (
      act_all-pending_close outside sid gen between (on_poll_lost sid d) undisturbed
        (on_poll_lost-pending_close sid d)) in
    close_if_open-status sid final.store r (
      ap
        (λ b.
          get_session sid
            (if b
              then record final {
                pending_close = λ s. if s == sid then none else final.pending_close s;
                store = close_if_open sid (get_session sid final.store) final.store;
              }
              else final).store)
        (sym due)
      ∙ known)
