-- ===== src/Events/Session.antt =====
-- What the statements of an event do to the pause of its session and to the held dependents.
use mathlib.Core.Option
use forksan.Prelude.{
  ℕ, ◌+◌, ◌≡◌, refl, ap, ◌∙◌, Bool, true, false, List, [], ◌∷◌, Option, none, some, Text, text_eq,
  find, Bool-cases, inl, inr,
}
use forksan.Sql.{update_where}
use forksan.Sql.Laws.{find-update_where_self, updated}
use forksan.Store.{
  Store, SessionRecord, SessionRow, SessionEvent, is_session, row_to_session, upsert_session,
  get_session, set_last_activity, update_session, bump_pause_epoch, next_pause, record_spawn,
  set_spawn_task_id, mark_spawn_terminal, set_transcript_gauge, list_pending_deps, is_fork_spawn,
}
use forksan.Store.Pauses.{after_event, get_session-upsert_session}
use forksan.Notification.{TaskNotification, is_terminal_status}
use forksan.Events.{
  status_of, Event, Outside, Delta, record_spawns, set_task_ids, note_completion, note_completions,
  apply_delta, after_read, ingest_for, ingest_path, ingest_transcript, match_spawn,
}

-- The pause that a row stands in: its epoch, and when it started.
abbrev pub Pause : Type 0
Pause = ℕ × Option ℕ

abbrev pub pause_of_row : SessionRow → Pause
pause_of_row r = (r.pause_epoch, r.pause_started_at)

unfoldable pub pause_of : Text → Store → Option Pause
pause_of sid s = Option.map pause_of_row (get_session sid s)

-- A session that is not known yet begins with its first pause.
abbrev pub or_first : Option Pause → Pause
or_first none = (0, none)
or_first (some p) = p

abbrev pub next_of : Bool → Pause → Pause
next_of true (epoch, started) = (epoch + 1, none)
next_of false p = p

pause_of-update :
    (sid : Text) (f : SessionRecord → SessionRecord) (g : Pause → Pause) (s t : Store)
    → t.sessions ≡ update_where (is_session sid) f s.sessions
    → ((x : SessionRecord) → (f x).session_id ≡ x.session_id)
    → ((x : SessionRecord)
        → pause_of_row (row_to_session (f x)) ≡ g (pause_of_row (row_to_session x)))
    → pause_of sid t ≡ Option.map g (pause_of sid s)
unfolding pause_of get_session
pause_of-update sid f g s t e own same =
    rw (e, find-update_where_self (is_session sid) f s.sessions (λ x h. rw (own x) h))
      (row (find (is_session sid) s.sessions))
  where
    row :
        (o : Option SessionRecord)
        → Option.map pause_of_row (Option.map row_to_session (updated f o))
          ≡ Option.map g (Option.map pause_of_row (Option.map row_to_session o))
    row none = refl
    row (some x) = ap some (same x)

map-same : (o : Option Pause) → Option.map (λ p. p) o ≡ o
map-same none = refl
map-same (some p) = refl

pub pause_of-set_last_activity :
    (sid : Text) (t : ℕ) (s : Store) → pause_of sid (set_last_activity sid t s) ≡ pause_of sid s
unfolding set_last_activity update_session row_to_session
pause_of-set_last_activity sid t s =
    pause_of-update sid _ (λ p. p) s _ refl (λ x. refl) (λ x. refl) ∙ map-same (pause_of sid s)

pause_of-set_transcript_gauge :
    (sid : Text) (offset : ℕ) (tokens : Option ℕ) (s : Store)
    → pause_of sid (set_transcript_gauge sid offset tokens s) ≡ pause_of sid s
unfolding set_transcript_gauge update_session row_to_session
pause_of-set_transcript_gauge sid offset tokens s =
    pause_of-update sid _ (λ p. p) s _ refl (λ x. refl) (λ x. refl) ∙ map-same (pause_of sid s)

pub pause_of-bump_pause_epoch :
    (sid : Text) (s : Store)
    → pause_of sid (bump_pause_epoch sid s) ≡ Option.map (next_of true) (pause_of sid s)
unfolding bump_pause_epoch update_session row_to_session
pause_of-bump_pause_epoch sid s =
    pause_of-update sid next_pause (next_of true) s _ refl (λ x. refl) (λ x. refl)

pub pause_of-upsert_session :
    (e : SessionEvent) (t : ℕ) (s : Store)
    → pause_of e.session_id (upsert_session e t s) ≡ some (or_first (pause_of e.session_id s))
unfolding pause_of
pause_of-upsert_session e t s =
    ap (Option.map pause_of_row) ((get_session-upsert_session e t s).0)
    ∙ row (get_session e.session_id s)
  where
    row :
        (o : Option SessionRow)
        → some (pause_of_row (after_event e t o)) ≡ some (or_first (Option.map pause_of_row o))
    row none = refl
    row (some r) = refl

-- Reading the transcript changes neither the pause nor the held dependents.
record_spawns-kept :
    (sid : Text) (t : ℕ) (spawns : List (Text × Option Text)) (s : Store)
    → (pause_of sid (record_spawns sid t spawns s) ≡ pause_of sid s)
      × (list_pending_deps sid (record_spawns sid t spawns s) ≡ list_pending_deps sid s)
unfolding record_spawns pause_of get_session record_spawn list_pending_deps
record_spawns-kept sid t [] s = (refl, refl)
record_spawns-kept sid t (p ∷ spawns) s =
    record_spawns-kept sid t spawns (record_spawn sid p.0 p.1 t s)

set_task_ids-kept :
    (sid : Text) (ids : List (Text × Text)) (s : Store)
    → (pause_of sid (set_task_ids sid ids s) ≡ pause_of sid s)
      × (list_pending_deps sid (set_task_ids sid ids s) ≡ list_pending_deps sid s)
unfolding set_task_ids pause_of get_session set_spawn_task_id list_pending_deps
set_task_ids-kept sid [] s = (refl, refl)
set_task_ids-kept sid (p ∷ ids) s = set_task_ids-kept sid ids (set_spawn_task_id sid p.0 p.1 s)

mark_spawn_terminal-kept :
    (sid u : Text) (tool task : Option Text) (status : Text) (t : ℕ) (s : Store)
    → (pause_of u (mark_spawn_terminal sid tool task status t s).0 ≡ pause_of u s)
      × (list_pending_deps u (mark_spawn_terminal sid tool task status t s).0
          ≡ list_pending_deps u s)
unfolding mark_spawn_terminal pause_of get_session list_pending_deps
mark_spawn_terminal-kept sid u tool task status t s =
    elim (Bool-cases (is_fork_spawn sid tool task s)) [
      | inl ours ↦ rw ours (refl, refl)
      | inr other ↦ rw other (refl, refl)
    ]

note_completion-kept :
    (sid : Text) (t : ℕ) (n : TaskNotification) (s : Store)
    → (pause_of sid (note_completion sid t n s) ≡ pause_of sid s)
      × (list_pending_deps sid (note_completion sid t n s) ≡ list_pending_deps sid s)
unfolding note_completion
note_completion-kept sid t n s = kept n.status
  where
    kept :
        (o : Option Text)
        → (pause_of sid (note_completion sid t (record n { status = o }) s) ≡ pause_of sid s)
          × (list_pending_deps sid (note_completion sid t (record n { status = o }) s)
              ≡ list_pending_deps sid s)
    kept none = (refl, refl)
    kept (some status) = elim (Bool-cases (is_terminal_status status)) [
      | inl over ↦ rw over (mark_spawn_terminal-kept sid sid n.tool_use_id n.task_id status t s)
      | inr running ↦ rw running (refl, refl)
    ]

note_completions-kept :
    (sid : Text) (t : ℕ) (ns : List TaskNotification) (s : Store)
    → (pause_of sid (note_completions sid t ns s) ≡ pause_of sid s)
      × (list_pending_deps sid (note_completions sid t ns s) ≡ list_pending_deps sid s)
unfolding note_completions
note_completions-kept sid t [] s = (refl, refl)
note_completions-kept sid t (n ∷ ns) s =
    let (p, q) = note_completions-kept sid t ns (note_completion sid t n s) in
    let (p', q') = note_completion-kept sid t n s in (p ∙ p', q ∙ q')

apply_delta-kept :
    (sid : Text) (t : ℕ) (delta : Delta) (s : Store)
    → (pause_of sid (apply_delta sid t delta s) ≡ pause_of sid s)
      × (list_pending_deps sid (apply_delta sid t delta s) ≡ list_pending_deps sid s)
unfolding apply_delta
apply_delta-kept sid t delta s =
    let spawned = record_spawns sid t delta.spawns s in
    let named = set_task_ids sid delta.task_ids spawned in
    let noted = note_completions sid t delta.notifications named in
    let (p1, q1) = record_spawns-kept sid t delta.spawns s in
    let (p2, q2) = set_task_ids-kept sid delta.task_ids spawned in
    let (p3, q3) = note_completions-kept sid t delta.notifications named in
    (
      pause_of-set_transcript_gauge sid delta.new_offset delta.prompt_tokens noted
          ∙ (p3 ∙ (p2 ∙ p1)),
      (unfold list_pending_deps set_transcript_gauge in q3 ∙ (q2 ∙ q1)),
    )

after_read-kept :
    (sid : Text) (t : ℕ) (session : SessionRow) (o : Option Delta) (s : Store)
    → (pause_of sid (after_read sid t session o s).0 ≡ pause_of sid s)
      × (list_pending_deps sid (after_read sid t session o s).0 ≡ list_pending_deps sid s)
unfolding after_read
after_read-kept sid t session none s = (refl, refl)
after_read-kept sid t session (some delta) s = apply_delta-kept sid t delta s

ingest_for-kept :
    (outside : Outside) (sid : Text) (t : ℕ) (transcript : Text) (o : Option SessionRow) (s : Store)
    → (pause_of sid (ingest_for outside sid t transcript o s).0 ≡ pause_of sid s)
      × (list_pending_deps sid (ingest_for outside sid t transcript o s).0
          ≡ list_pending_deps sid s)
unfolding ingest_for
ingest_for-kept outside sid t transcript none s = (refl, refl)
ingest_for-kept outside sid t transcript (some session) s = after_read-kept sid t session _ s

ingest_path-kept :
    (outside : Outside) (sid : Text) (t : ℕ) (path : Option Text) (s : Store)
    → (pause_of sid (ingest_path outside sid t path s).0 ≡ pause_of sid s)
      × (list_pending_deps sid (ingest_path outside sid t path s).0 ≡ list_pending_deps sid s)
unfolding ingest_path
ingest_path-kept outside sid t none s = (refl, refl)
ingest_path-kept outside sid t (some transcript) s = ingest_for-kept outside sid t transcript _ s

pub ingest_transcript-kept :
    (outside : Outside) (ev : Event) (t : ℕ) (s : Store)
    → (pause_of ev.session_id (ingest_transcript outside ev t s).0 ≡ pause_of ev.session_id s)
      × (list_pending_deps ev.session_id (ingest_transcript outside ev t s).0
          ≡ list_pending_deps ev.session_id s)
unfolding ingest_transcript
ingest_transcript-kept outside ev t s =
    ingest_path-kept outside ev.session_id t ev.transcript_path s

pub match_spawn-kept :
    (ev : Event) (t : ℕ) (s : Store)
    → (pause_of ev.session_id (match_spawn ev t s).0 ≡ pause_of ev.session_id s)
      × (list_pending_deps ev.session_id (match_spawn ev t s).0 ≡ list_pending_deps ev.session_id s)
unfolding match_spawn
match_spawn-kept ev t s = elim (Bool-cases (is_terminal_status (status_of ev.notif_status))) [
  | inl over ↦ rw over (
      mark_spawn_terminal-kept ev.session_id ev.session_id ev.notif_tool_use_id ev.notif_task_id _ t
        s)
  | inr running ↦ rw running (refl, refl)
]
