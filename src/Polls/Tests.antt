-- ===== src/Polls/Tests.antt =====
-- A lost poll of a concrete session.
use forksan.Prelude.{
  false, wrapping_add, List, All, ◌≡◌, refl, true, [], ◌∷◌, none, some, codes, arith, find, any,
  text_beq,
}
use forksan.Sql.{upsert, update_where}
use forksan.Store.{
  SessionRow, SessionEvent, empty, closed, get_session, upsert_session, close_session, split_tags,
}
use forksan.Planner.{Daemon}
use forksan.Events.{Event, Outside, Clock, session_start, handle_event}
use forksan.Polls.{
  is_gen, close_if_open, act, closed, Action, elapsed, lost, on_poll_lost, after_grace, act_all,
}
use forksan.Polls.Stale.{after_grace-handle_event}
use forksan.Polls.Due.{disturbs, act_all-after_grace}

abbrev event : SessionEvent
event = record {
  session_id = codes "s1";
  project_root = codes "/p";
  cwd = codes "/p";
  transcript_path = none;
  model = none;
  enable_tags = none;
  disable_tags = none;
}

abbrev parked : Daemon
parked = record {
  store = upsert_session event 5 empty;
  waits = λ s. true;
  wake_issued_at = λ s. none;
  pending_close = λ s. some 1;
  close_gen = 1;
  last_busy = 0;
  parked = λ s. 0;
}

abbrev outside : Outside
outside = record { from_json = λ text. none; read_bytes = λ path. none; wake_grace_secs = 20 }

abbrev clock : Clock
clock = record { busy = 50; now = 50; ingested = 51 }

abbrev start : Event
start = record {
  event = session_start;
  session_id = codes "s1";
  transcript_path = none;
  cwd = codes "/p";
  project_root = codes "/p";
  model = none;
  enable_tags = none;
  disable_tags = none;
  waking = none;
  notif_tool_use_id = none;
  notif_task_id = none;
  notif_status = none;
}

after_grace-handle_event_example :
    after_grace
      (codes "s1")
      1
      (act_all outside (lost (codes "s1") ∷ []) (handle_event outside start clock parked))
    ≡ act_all outside (lost (codes "s1") ∷ []) (handle_event outside start clock parked)
after_grace-handle_event_example =
    after_grace-handle_event outside start clock parked (lost (codes "s1") ∷ []) 1 (omega arith)
      (omega arith)

-- Another session loses its poll and runs into its timer within the grace, and an older timer of the
-- session itself runs out.
abbrev between : List Action
between = lost (codes "s2") ∷ elapsed (codes "s2") 3 ∷ elapsed (codes "s1") 1 ∷ []

-- The daemon after the timer of the first session.
abbrev final : Daemon
final =
    after_grace (codes "s1") (on_poll_lost (codes "s1") parked).close_gen
      (act_all outside between (on_poll_lost (codes "s1") parked))

between-undisturbed :
    All (λ a. disturbs (codes "s1") (on_poll_lost (codes "s1") parked).close_gen a ≡ false) between
unfolding disturbs text_beq on_poll_lost wrapping_add
between-undisturbed = (refl, (refl, (refl, tt)))

abbrev row : SessionRow
row = record {
  session_id = codes "s1";
  project_root = codes "/p";
  cwd = codes "/p";
  transcript_path = none;
  status = closed;
  last_activity = 5;
  transcript_offset = 0;
  prompt_tokens = none;
  model = none;
  created_at = 5;
  enable_tags = none;
  disable_tags = none;
  pause_epoch = 0;
  pause_started_at = none;
}

row-known : get_session (codes "s1") final.store ≡ some row
unfolding get_session upsert_session upsert find any text_beq split_tags on_poll_lost act_all act
    after_grace is_gen close_if_open close_session update_where wrapping_add
row-known = refl

act_all-after_grace_example : row.status ≡ closed
act_all-after_grace_example =
    act_all-after_grace outside (codes "s1") between parked row between-undisturbed row-known
