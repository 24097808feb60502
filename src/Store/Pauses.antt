-- ===== src/Store/Pauses.antt =====
-- What the session statements do to the row of a session.
use mathlib.Core.Option
use forksan.Prelude.{
  ℕ, ◌≡◌, ◌≢◌, refl, ap, ◌∙◌, sym, true, false, ◌&&◌, List, [], ◌∷◌, Option, none, some, Text,
  text_eq, ==_refl, ==_sound, ne→==, arith, find, Option-cases, inl, inr,
}
use forksan.Sql.{update_where}
use forksan.Sql.Laws.{find-upsert, find-upsert_other, updated, or_new}
use forksan.Store.{
  Store, SessionRecord, SessionRow, SessionEvent, opened, is_session, upsert_session, get_session,
  set_pause_started_at_if_unset, row_to_session, split_tags, coalesce, new_session, touch_session,
  start_pause, is_unset,
}

-- What an event makes of the row of its session.
abbrev pub after_event : SessionEvent → ℕ → Option SessionRow → SessionRow
after_event e now none = record {
  session_id = e.session_id;
  project_root = e.project_root;
  cwd = e.cwd;
  transcript_path = e.transcript_path;
  status = opened;
  last_activity = now;
  transcript_offset = 0;
  prompt_tokens = none;
  model = e.model;
  created_at = now;
  enable_tags = split_tags e.enable_tags;
  disable_tags = split_tags e.disable_tags;
  pause_epoch = 0;
  pause_started_at = none;
}
after_event e now (some r) = record r {
  project_root = e.project_root;
  transcript_path = coalesce e.transcript_path r.transcript_path;
  status = opened;
  last_activity = now;
  model = coalesce e.model r.model;
  enable_tags = split_tags e.enable_tags;
  disable_tags = split_tags e.disable_tags;
}

other_session :
    (a b : Text) (r : SessionRecord) → a ≢ b → is_session a r ≡ true → is_session b r ≡ false
other_session a b r n h = ne→== r.session_id b (λ e. n (sym (==_sound r.session_id a h) ∙ e))

-- An event opens its session: a new one starts with fresh pause columns, a known one keeps its launch
-- directory, creation time, gauge and pause. The rows of other sessions do not change.
pub get_session-upsert_session :
    (e : SessionEvent) (now : ℕ) (s : Store)
    → (get_session e.session_id (upsert_session e now s)
        ≡ some (after_event e now (get_session e.session_id s)))
      × ((sid : Text)
          → e.session_id ≢ sid
          → get_session sid (upsert_session e now s) ≡ get_session sid s)
unfolding get_session upsert_session
get_session-upsert_session e now s = (
  rw
      (find-upsert (is_session e.session_id) (new_session e now) (touch_session e now) s.sessions
        (==_refl e.session_id) (λ r h. h))
      (row (find (is_session e.session_id) s.sessions)),
  λ sid n. ap (Option.map row_to_session) (
      find-upsert_other (is_session e.session_id) (is_session sid) (new_session e now)
        (touch_session e now) s.sessions (ne→== e.session_id sid n)
        (λ r h. other_session e.session_id sid r n h)
        (λ r h. other_session e.session_id sid r n h)),
)
  where
    row :
        (o : Option SessionRecord)
        → Option.map row_to_session (or_new (new_session e now) (updated (touch_session e now) o))
          ≡ some (after_event e now (Option.map row_to_session o))
    row none = refl
    row (some r) = refl

-- The baseline that a Stop finds or sets.
abbrev pub with_baseline : ℕ → SessionRow → SessionRow
with_baseline now r = record r { pause_started_at = coalesce r.pause_started_at (some now) }

started : ℕ → SessionRecord → SessionRecord
started now r = record r { pause_started_at = coalesce r.pause_started_at (some now) }

-- Testing for NULL and setting is the same as setting what COALESCE leaves.
find-start_pause :
    (sid : Text) (now : ℕ) (rs : List SessionRecord)
    → find
        (is_session sid)
        (update_where (λ r. is_session sid r && is_unset r.pause_started_at) (start_pause now) rs)
      ≡ updated (started now) (find (is_session sid) rs)
unfolding find update_where started
find-start_pause sid now [] = refl
find-start_pause sid now (r ∷ rs) = elim (Option-cases r.pause_started_at) [
  | inl e ↦ ground (arith, find-start_pause sid now rs)
  | inr (t, e) ↦ ground (arith, find-start_pause sid now rs)
]

-- For a known session the first Stop of a pause sets the baseline, a later one leaves it, and
-- nothing else of the row changes.
pub get_session-set_pause_started_at_if_unset :
    (sid : Text) (now : ℕ) (s : Store) (r : SessionRow)
    → get_session sid s ≡ some r
    → get_session sid (set_pause_started_at_if_unset sid now s) ≡ some (with_baseline now r)
unfolding get_session set_pause_started_at_if_unset started
get_session-set_pause_started_at_if_unset sid now s r h =
    rw (find-start_pause sid now s.sessions) (row (find (is_session sid) s.sessions) h)
  where
    row :
        (o : Option SessionRecord)
        → Option.map row_to_session o ≡ some r
        → Option.map row_to_session (updated (started now) o) ≡ some (with_baseline now r)
    row none q = cc
    row (some x) q = ap (Option.map (with_baseline now)) q
