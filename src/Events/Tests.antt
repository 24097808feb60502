-- ===== src/Events/Tests.antt =====
-- Prompts of a concrete session.
use forksan.Prelude.{◌≡◌, refl, true, false, not, ◌&&◌, [], ◌∷◌, none, some, codes, text_beq, any}
use forksan.Store.{
  insert_pending_dep, record_spawn, mark_spawn_terminal, empty, list_pending_deps, is_fork_spawn,
}
use forksan.Sql.{count_where, insert_or_ignore}
use forksan.Notification.{is_terminal_status}
use forksan.Planner.{Daemon}
use forksan.Events.{
  match_spawn, ingest_path, Event, Outside, Clock, prompt_submit, handle_event, classify,
  is_notification, ingest_transcript, recently_woke,
}
use forksan.Events.Session.{pause_of, or_first, next_of}
use forksan.Events.Pause.{held_after, handle_event-prompt_submit, classify-is_fork_spawn}

abbrev outside : Outside
outside = record { from_json = λ text. none; read_bytes = λ path. none; wake_grace_secs = 20 }

abbrev clock : Clock
clock = record { busy = 50; now = 50; ingested = 51 }

abbrev prompt : Event
prompt = record {
  event = prompt_submit;
  session_id = codes "s1";
  transcript_path = none;
  cwd = codes "/p";
  project_root = codes "/p";
  model = none;
  enable_tags = none;
  disable_tags = none;
  waking = some true;
  notif_tool_use_id = none;
  notif_task_id = none;
  notif_status = none;
}

-- The completion of the fork that was spawned as t1.
abbrev completion : Event
completion = record prompt {
  waking = none;
  notif_tool_use_id = some (codes "t1");
  notif_status = some (codes "completed");
}

-- A fork is spawned, and another one is held for it.
abbrev running : Daemon
running = record {
  store =
      insert_pending_dep (codes "s1") (codes "deploy") (codes "/p/deploy.md") (codes "idle") false
        (codes "journal" ∷ []) 10
        (record_spawn (codes "s1") (codes "t1") (some (codes "journal")) 10 empty);
  waits = λ s. true;
  wake_issued_at = λ s. none;
  pending_close = λ s. some 1;
  close_gen = 1;
  last_busy = 0;
  parked = λ s. 0;
}

classify-prompt : (classify outside prompt clock running).1 ≡ true
unfolding classify is_notification
classify-prompt = refl

classify-completion : (classify outside completion clock running).1 ≡ false
unfolding classify is_notification match_spawn is_terminal_status text_beq mark_spawn_terminal
    is_fork_spawn count_where ingest_transcript ingest_path insert_pending_dep record_spawn
    insert_or_ignore any
classify-completion = refl

handle_event-prompt_submit_example :
    (pause_of (codes "s1") (handle_event outside prompt clock running).store
      ≡ some (
          next_of
            (classify outside prompt clock running).1
            (or_first (pause_of (codes "s1") running.store))))
    × (list_pending_deps (codes "s1") (handle_event outside prompt clock running).store
        ≡ held_after
            (classify outside prompt clock running).1
            (list_pending_deps (codes "s1") running.store))
    × ((handle_event outside prompt clock running).waits (codes "s1") ≡ false)
    × ((handle_event outside prompt clock running).pending_close (codes "s1") ≡ none)
handle_event-prompt_submit_example = handle_event-prompt_submit outside prompt clock running refl

completion-is_notification : is_notification completion ≡ true
unfolding is_notification
completion-is_notification = refl

classify-is_fork_spawn_example : (classify outside completion clock running).1 ≡ (
    not (
      is_fork_spawn
        (codes "s1")
        (some (codes "t1"))
        none
        (ingest_transcript outside completion clock.ingested running.store).0)
    && not (recently_woke outside (codes "s1") clock.now running))
classify-is_fork_spawn_example =
    classify-is_fork_spawn outside completion clock running completion-is_notification
