-- ===== src/Polls/Stale.antt =====
-- A close that a fresh event cancelled never happens.
use forksan.Prelude.{
  ℕ, ◌+◌, ◌<◌, ◌≤◌, ◌≡◌, refl, ap, ◌∙◌, Bool, true, false, List, [], ◌∷◌, Option, none, some, Text,
  text_eq, nat_eq, ◌==◌, ==_refl, arith, Bool-cases, inl, inr, if◌then◌else◌, length, word,
  wrapping_add,
}
use forksan.Planner.{Daemon}
use forksan.Events.{
  Event, EventKind, Outside, Clock, session_start, prompt_submit, stop, session_end, handle_event,
  on_event, on_session_start, on_prompt_submit, on_session_end, cancel_wait, clear_pending_close,
  touch_busy,
}
use forksan.Polls.{on_poll_lost, after_grace, is_gen, Action, received, lost, elapsed, act, act_all}

-- The timer of that generation can no longer close the session.
pub record IsStale (sid : Text) (gen : ℕ) (d : Daemon) : Type 0 where
  pub issued : gen ≤ d.close_gen
  pub superseded : is_gen gen (d.pending_close sid) ≡ false

on_event-pending_close :
    (kind : EventKind) (outside : Outside) (ev : Event) (clock : Clock) (d : Daemon)
    → ((on_event kind outside ev clock d).pending_close ≡ d.pending_close)
      × ((on_event kind outside ev clock d).close_gen ≡ d.close_gen)
unfolding on_event on_session_start on_prompt_submit on_session_end cancel_wait
on_event-pending_close session_start outside ev clock d = (refl, refl)
on_event-pending_close prompt_submit outside ev clock d = (refl, refl)
on_event-pending_close stop outside ev clock d = (refl, refl)
on_event-pending_close session_end outside ev clock d = (refl, refl)

-- An event clears the pending close of its session only.
pub handle_event-pending_close :
    (outside : Outside) (ev : Event) (clock : Clock) (d : Daemon) (u : Text)
    → (handle_event outside ev clock d).pending_close u
      ≡ (if u == ev.session_id then none else d.pending_close u)
unfolding handle_event
handle_event-pending_close outside ev clock d u =
    ap (λ f. f u)
      ((on_event-pending_close ev.event outside ev clock
        (clear_pending_close ev.session_id (touch_busy clock.busy d))).0)
    ∙ (unfold clear_pending_close touch_busy in refl)

handle_event-close_gen :
    (outside : Outside) (ev : Event) (clock : Clock) (d : Daemon)
    → (handle_event outside ev clock d).close_gen ≡ d.close_gen
unfolding handle_event
handle_event-close_gen outside ev clock d =
    (on_event-pending_close ev.event outside ev clock
      (clear_pending_close ev.session_id (touch_busy clock.busy d))).1
    ∙ (unfold clear_pending_close touch_busy in refl)

cleared-is_gen :
    (gen : ℕ) (b : Bool) (o : Option ℕ)
    → is_gen gen o ≡ false
    → is_gen gen (if b then none else o) ≡ false
unfolding is_gen
cleared-is_gen gen true o h = refl
cleared-is_gen gen false o h = h

handle_event-IsStale :
    (outside : Outside) (ev : Event) (clock : Clock) (d : Daemon) (sid : Text) (gen : ℕ)
    → IsStale sid gen d
    → IsStale sid gen (handle_event outside ev clock d)
handle_event-IsStale outside ev clock d sid gen k = record {
  issued = rw (handle_event-close_gen outside ev clock d) k.issued;
  superseded =
      ap (is_gen gen) (handle_event-pending_close outside ev clock d sid)
      ∙ cleared-is_gen gen (sid == ev.session_id) (d.pending_close sid) k.superseded;
}

newer-is_gen :
    (gen g : ℕ) (b : Bool) (o : Option ℕ)
    → gen ≤ g
    → is_gen gen o ≡ false
    → is_gen gen (if b then some (g + 1) else o) ≡ false
unfolding is_gen
newer-is_gen gen g true o l h = ground arith
newer-is_gen gen g false o l h = h

wrapping_add_one : (g : ℕ) → g + 1 < word → wrapping_add g 1 ≡ g + 1
unfolding wrapping_add
wrapping_add_one g h = omega arith

on_poll_lost-IsStale :
    (u : Text) (d : Daemon) (sid : Text) (gen : ℕ)
    → d.close_gen + 1 < word
    → IsStale sid gen d
    → IsStale sid gen (on_poll_lost u d) × ((on_poll_lost u d).close_gen ≡ d.close_gen + 1)
unfolding on_poll_lost
on_poll_lost-IsStale u d sid gen fits k =
    let l = k.issued in
    rw (wrapping_add_one d.close_gen fits) (
      record {
        issued = omega (arith, l);
        superseded = newer-is_gen gen d.close_gen (sid == u) (d.pending_close sid) l k.superseded;
      },
      refl,
    )

after_grace-IsStale :
    (u : Text) (g : ℕ) (d : Daemon) (sid : Text) (gen : ℕ)
    → IsStale sid gen d
    → IsStale sid gen (after_grace u g d) × ((after_grace u g d).close_gen ≡ d.close_gen)
unfolding after_grace
after_grace-IsStale u g d sid gen k = elim (Bool-cases (is_gen g (d.pending_close u))) [
  | inl due ↦ rw due (
    record {
      issued = k.issued;
      superseded = cleared-is_gen gen (sid == u) (d.pending_close sid) k.superseded;
    },
    refl,
  )
  | inr old ↦ rw old (k, refl)
]

-- Each step issues at most one generation.
act-IsStale :
    (outside : Outside) (a : Action) (d : Daemon) (sid : Text) (gen : ℕ)
    → d.close_gen + 1 < word
    → IsStale sid gen d
    → IsStale sid gen (act outside a d) × ((act outside a d).close_gen ≤ d.close_gen + 1)
unfolding act
act-IsStale outside (received ev clock) d sid gen fits k = (
  handle_event-IsStale outside ev clock d sid gen k,
  omega (arith, handle_event-close_gen outside ev clock d),
)
act-IsStale outside (lost u) d sid gen fits k =
    let (stale, e) = on_poll_lost-IsStale u d sid gen fits k in (stale, omega (arith, e))
act-IsStale outside (elapsed u g) d sid gen fits k =
    let (stale, e) = after_grace-IsStale u g d sid gen k in (stale, omega (arith, e))

act_all-IsStale :
    (outside : Outside) (actions : List Action) (d : Daemon) (sid : Text) (gen : ℕ)
    → d.close_gen + length actions < word
    → IsStale sid gen d
    → IsStale sid gen (act_all outside actions d)
unfolding act_all
act_all-IsStale outside [] d sid gen fits k = k
act_all-IsStale outside (a ∷ rest) d sid gen fits k =
    let (stale, le) = act-IsStale outside a d sid gen (omega arith) k in
    act_all-IsStale outside rest (act outside a d) sid gen (omega (arith, le)) stale

-- Once an event of a session was handled, the timer of a poll that was lost before it changes nothing
-- when it runs out, whatever events, lost polls and timers come in between, unless the generations
-- run through all of u64.
pub after_grace-handle_event :
    (outside : Outside) (ev : Event) (clock : Clock) (d : Daemon) (between : List Action) (gen : ℕ)
    → gen ≤ d.close_gen
    → d.close_gen + length between < word
    → after_grace ev.session_id gen (act_all outside between (handle_event outside ev clock d))
      ≡ act_all outside between (handle_event outside ev clock d)
unfolding after_grace
after_grace-handle_event outside ev clock d between gen issued fits =
    let fresh = handle_event outside ev clock d in
    let stale =
      act_all-IsStale outside between fresh ev.session_id gen
        (omega (arith, handle_event-close_gen outside ev clock d))
        (record {
          issued = omega (arith, handle_event-close_gen outside ev clock d);
          superseded =
              ap (is_gen gen) (handle_event-pending_close outside ev clock d ev.session_id)
              ∙ own (ev.session_id == ev.session_id) (==_refl ev.session_id);
        }) in
    rw stale.superseded refl
  where
    own :
        (b : Bool)
        → b ≡ true
        → is_gen gen (if b then none else d.pending_close ev.session_id) ≡ false
    own true h = unfold is_gen in refl
    own false h = cc
