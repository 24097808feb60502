-- ===== src/Events/Pause.antt =====
-- When a pause begins: at a prompt that is genuine activity, and never at a continuation.
use mathlib.Core.Option
use forksan.Prelude.{
  ℕ, ◌≡◌, refl, ap, ◌∙◌, Bool, true, false, not, ◌&&◌, List, [], Option, none, some, Text, text_eq,
  ◌==◌, Bool-cases, inl, inr, sort_by, ==_refl,
}
use forksan.Sql.Laws.{filter-delete_where}
use forksan.Store.{
  Store, PendingDep, upsert_session, set_last_activity, bump_pause_epoch, clear_pending_deps,
  list_pending_deps, is_fork_spawn, get_session, update_session,
}
use forksan.Store.Completion.{mark_spawn_terminal-matched}
use forksan.Notification.{is_terminal_status}
use forksan.Planner.{Daemon}
use forksan.Events.Session.{
  Pause, pause_of, or_first, next_of, pause_of-upsert_session, pause_of-set_last_activity,
  pause_of-bump_pause_epoch, ingest_transcript-kept, match_spawn-kept,
}
use forksan.Events.{
  Event, Outside, Clock, prompt_submit, session_event, begin_pause, classify, is_notification,
  ingest_transcript, match_spawn, recently_woke, on_event, handle_event, on_prompt_submit,
  cancel_wait, status_of, touch_busy, clear_pending_close,
}

classify-kept :
    (outside : Outside) (ev : Event) (clock : Clock) (d : Daemon)
    → (pause_of ev.session_id (classify outside ev clock d).0 ≡ pause_of ev.session_id d.store)
      × (list_pending_deps ev.session_id (classify outside ev clock d).0
          ≡ list_pending_deps ev.session_id d.store)
unfolding classify
classify-kept outside ev clock d = elim (Bool-cases (is_notification ev)) [
  | inl yes_it ↦
      let read = (ingest_transcript outside ev clock.ingested d.store).0 in
      let (p, q) = match_spawn-kept ev clock.now read in
      let (p', q') = ingest_transcript-kept outside ev clock.ingested d.store in
      rw yes_it (p ∙ p', q ∙ q')
  | inr prompt ↦ rw prompt (refl, refl)
]

-- The dependents that are held after a prompt.
abbrev pub held_after : Bool → List PendingDep → List PendingDep
held_after true deps = []
held_after false deps = deps

pause_of-clear_pending_deps :
    (sid : Text) (s : Store) → pause_of sid (clear_pending_deps sid s).0 ≡ pause_of sid s
unfolding clear_pending_deps pause_of get_session
pause_of-clear_pending_deps sid s = refl

map-next_of : (o : Option Pause) → o ≡ Option.map (next_of false) o
map-next_of none = refl
map-next_of (some p) = refl

begin_pause-pause :
    (sid : Text) (w : Bool) (s : Store)
    → pause_of sid (begin_pause sid w s) ≡ Option.map (next_of w) (pause_of sid s)
unfolding begin_pause
begin_pause-pause sid true s =
    pause_of-clear_pending_deps sid (bump_pause_epoch sid s) ∙ pause_of-bump_pause_epoch sid s
begin_pause-pause sid false s = map-next_of (pause_of sid s)

clear_pending_deps-held :
    (sid : Text) (s : Store) → list_pending_deps sid (clear_pending_deps sid s).0 ≡ []
unfolding clear_pending_deps list_pending_deps sort_by
clear_pending_deps-held sid s =
    rw
      (filter-delete_where (λ r. r.session_id == sid) (λ r. r.session_id == sid) s.pending_deps
        (λ r h. h))
      refl

begin_pause-held :
    (sid : Text) (w : Bool) (s : Store)
    → list_pending_deps sid (begin_pause sid w s) ≡ held_after w (list_pending_deps sid s)
unfolding begin_pause
begin_pause-held sid true s = clear_pending_deps-held sid (bump_pause_epoch sid s)
begin_pause-held sid false s = refl

seen-held :
    (ev : Event) (t : ℕ) (s : Store)
    → list_pending_deps ev.session_id
        (set_last_activity ev.session_id t (upsert_session (session_event ev) t s))
      ≡ list_pending_deps ev.session_id s
unfolding set_last_activity update_session upsert_session list_pending_deps
seen-held ev t s = refl

seen-pause :
    (ev : Event) (t : ℕ) (s : Store)
    → pause_of ev.session_id
        (set_last_activity ev.session_id t (upsert_session (session_event ev) t s))
      ≡ some (or_first (pause_of ev.session_id s))
unfolding session_event
seen-pause ev t s =
    pause_of-set_last_activity ev.session_id t (upsert_session (session_event ev) t s)
    ∙ pause_of-upsert_session (session_event ev) t s

on_prompt_submit-store :
    (outside : Outside) (ev : Event) (clock : Clock) (d : Daemon)
    → (pause_of ev.session_id (on_prompt_submit outside ev clock d).store
        ≡ some
            (next_of (classify outside ev clock d).1 (or_first (pause_of ev.session_id d.store))))
      × (list_pending_deps ev.session_id (on_prompt_submit outside ev clock d).store
          ≡ held_after (classify outside ev clock d).1 (list_pending_deps ev.session_id d.store))
unfolding on_prompt_submit cancel_wait
on_prompt_submit-store outside ev clock d =
    let sid = ev.session_id in
    let s = (classify outside ev clock d).0 in
    let w = (classify outside ev clock d).1 in
    let seen = set_last_activity sid clock.now (upsert_session (session_event ev) clock.now s) in
    let (p, q) = classify-kept outside ev clock d in
    (
      begin_pause-pause sid w seen
          ∙ (ap (Option.map (next_of w)) (seen-pause ev clock.now s)
              ∙ ap (λ o. some (next_of w (or_first o))) p),
      begin_pause-held sid w seen
          ∙ (ap (held_after w) (seen-held ev clock.now s) ∙ ap (held_after w) q),
    )

handle_event-on_prompt_submit :
    (outside : Outside) (ev : Event) (clock : Clock) (d : Daemon)
    → ev.event ≡ prompt_submit
    → handle_event outside ev clock d
      ≡ on_prompt_submit outside ev clock
          (clear_pending_close ev.session_id (touch_busy clock.busy d))
unfolding handle_event on_event
handle_event-on_prompt_submit outside ev clock d e =
    ap
      (λ k.
        on_event k outside ev clock (clear_pending_close ev.session_id (touch_busy clock.busy d)))
      e

-- A prompt that is genuine activity begins a new pause: the epoch goes up by one, the baseline is unset
-- and no dependent stays held. A continuation keeps the pause and the held dependents. Either way the
-- session's parked poll is cancelled and no close of it is pending.
pub handle_event-prompt_submit :
    (outside : Outside) (ev : Event) (clock : Clock) (d : Daemon)
    → ev.event ≡ prompt_submit
    → (pause_of ev.session_id (handle_event outside ev clock d).store
        ≡ some
            (next_of (classify outside ev clock d).1 (or_first (pause_of ev.session_id d.store))))
      × (list_pending_deps ev.session_id (handle_event outside ev clock d).store
          ≡ held_after (classify outside ev clock d).1 (list_pending_deps ev.session_id d.store))
      × ((handle_event outside ev clock d).waits ev.session_id ≡ false)
      × ((handle_event outside ev clock d).pending_close ev.session_id ≡ none)
handle_event-prompt_submit outside ev clock d e =
    let alive = clear_pending_close ev.session_id (touch_busy clock.busy d) in
    let (p, q) = on_prompt_submit-store outside ev clock alive in
    let run = handle_event-on_prompt_submit outside ev clock d e in
    (
      ap (λ x. pause_of ev.session_id (Daemon.store x)) run
          ∙ (unfold classify touch_busy clear_pending_close recently_woke in p),
      ap (λ x. list_pending_deps ev.session_id (Daemon.store x)) run
          ∙ (unfold classify touch_busy clear_pending_close recently_woke in q),
      ap (λ x. Daemon.waits x ev.session_id) run
          ∙ (unfold on_prompt_submit cancel_wait in rw (==_refl ev.session_id) refl),
      ap (λ x. Daemon.pending_close x ev.session_id) run
          ∙ (unfold on_prompt_submit cancel_wait clear_pending_close in
              rw (==_refl ev.session_id) refl),
    )

-- A notification is genuine activity exactly when, with the transcript read first, its ids name no
-- recorded fork spawn and no wake was issued within the grace window, whatever its status is.
pub classify-is_fork_spawn :
    (outside : Outside) (ev : Event) (clock : Clock) (d : Daemon)
    → is_notification ev ≡ true
    → (classify outside ev clock d).1 ≡ (
        not (
          is_fork_spawn ev.session_id ev.notif_tool_use_id ev.notif_task_id
            (ingest_transcript outside ev clock.ingested d.store).0)
        && not (recently_woke outside ev.session_id clock.now d))
unfolding classify
classify-is_fork_spawn outside ev clock d h =
    rw (h, matched (ingest_transcript outside ev clock.ingested d.store).0) refl
  where
    matched :
        (s : Store)
        → (match_spawn ev clock.now s).1
          ≡ is_fork_spawn ev.session_id ev.notif_tool_use_id ev.notif_task_id s
    matched s =
        unfold match_spawn in
        elim (Bool-cases (is_terminal_status (status_of ev.notif_status))) [
          | inl over ↦ rw over (
              (mark_spawn_terminal-matched ev.session_id ev.notif_tool_use_id ev.notif_task_id _
                clock.now s).0)
          | inr running ↦ rw running refl
        ]
