-- ===== src/Store/Tests.antt =====
-- The store at concrete rows.
use forksan.Prelude.{
  ◌||◌, ◌≡◌, ◌≢◌, refl, find, text_beq, any, trim, true, false, not, [], ◌∷◌, none, some, Text,
  codes, In, inl, arith,
}
use forksan.Store.{
  opened, split_tags, Store, SessionEvent, SessionRow, PendingDep, empty, SpawnRecord, spawned,
  upsert_session, get_session, close_session, try_latch_fire, is_latched, record_spawn,
  mark_spawn_terminal, fork_completed_since, insert_pending_dep, list_pending_deps,
}
use forksan.Sql.{insert_or_ignore, upsert}
use forksan.Store.Latch.{same_latch, try_latch_fire_lem}
use forksan.Store.Completion.{fork_completed_since-mark_spawn_terminal}
use forksan.Store.Close.{IsCleared, SameSession, close_session_lem}
use forksan.Store.Held.{
  list_pending_deps-comma, IsListable, held, list_pending_deps-insert_pending_dep,
}

abbrev prompt : SessionEvent
prompt = record {
  session_id = codes "s1";
  project_root = codes "/p";
  cwd = codes "/p";
  transcript_path = none;
  model = none;
  enable_tags = none;
  disable_tags = none;
}

abbrev one_session : Store
one_session = upsert_session prompt 5 empty

-- A session with a latch and a spawn.
abbrev busy : Store
busy =
    record_spawn (codes "s1") (codes "t1") (some (codes "journal")) 6
      (try_latch_fire (codes "s1") (codes "journal") (codes "idle-pause:0") 6 one_session).0

abbrev journal_run : SpawnRecord
journal_run = record {
  session_id = codes "s1";
  tool_use_id = codes "t1";
  task_id = none;
  fork_name = some (codes "journal");
  status = spawned;
  spawned_at = 6;
  terminal_at = none;
}

abbrev s1_row : SessionRow
s1_row = record {
  session_id = codes "s1";
  project_root = codes "/p";
  cwd = codes "/p";
  transcript_path = none;
  status = opened;
  last_activity = 5;
  transcript_offset = 0;
  prompt_tokens = none;
  model = none;
  created_at = 5;
  enable_tags = none;
  disable_tags = none;
  pause_epoch = 0;
  pause_started_at = none;
}

try_latch_fire_example :
    ((try_latch_fire (codes "s1") (codes "journal") (codes "idle-pause:0") 9 busy).1
      ≡ not (is_latched (codes "s1") (codes "journal") (codes "idle-pause:0") busy))
    × ((a b c : Text)
        → is_latched a b c
            (try_latch_fire (codes "s1") (codes "journal") (codes "idle-pause:0") 9 busy).0
          ≡ (same_latch (codes "s1", codes "journal", codes "idle-pause:0") (a, b, c)
              || is_latched a b c busy))
try_latch_fire_example =
    try_latch_fire_lem (codes "s1") (codes "journal") (codes "idle-pause:0") 9 busy

spawn_row : In journal_run busy.fork_spawns
unfolding record_spawn try_latch_fire insert_or_ignore any upsert_session upsert
spawn_row = inl refl

fork_completed_since-mark_spawn_terminal_example :
    fork_completed_since
      (codes "s1")
      (codes "journal")
      6
      (mark_spawn_terminal (codes "s1") (some (codes "t1")) none (codes "completed") 8 busy).0
    ≡ true
unfolding text_beq
fork_completed_since-mark_spawn_terminal_example =
    fork_completed_since-mark_spawn_terminal (codes "s1") (codes "journal") (codes "completed")
      (some (codes "t1")) none 6 8 busy journal_run spawn_row refl refl refl refl refl (omega arith)

close_session_example :
    IsCleared (codes "s1") (close_session (codes "s1") busy)
    × ((u : Text) → u ≢ codes "s1" → SameSession u (close_session (codes "s1") busy) busy)
close_session_example = close_session_lem (codes "s1") busy

a-IsListable : IsListable (codes "a")
unfolding trim
a-IsListable = (λ m. ground arith, refl, refl)

b-IsListable : IsListable (codes "b")
unfolding trim
b-IsListable = (λ m. ground arith, refl, refl)

bumped_once : get_session (codes "s1") one_session ≡ some s1_row
unfolding get_session upsert_session upsert find any text_beq split_tags
bumped_once = refl

list_pending_deps-insert_pending_dep_example :
    In
      (held
        (codes "deploy")
        (codes "/p/deploy.md")
        (codes "idle")
        false
        (codes "a" ∷ codes "b" ∷ [])
        8)
      (list_pending_deps (codes "s1") (
        insert_pending_dep
          (codes "s1")
          (codes "deploy")
          (codes "/p/deploy.md")
          (codes "idle")
          false
          (codes "a" ∷ codes "b" ∷ [])
          8
          busy))
    × ((d : PendingDep)
        → In d (
            list_pending_deps (codes "s1") (
              insert_pending_dep
                (codes "s1")
                (codes "deploy")
                (codes "/p/deploy.md")
                (codes "idle")
                false
                (codes "a" ∷ codes "b" ∷ [])
                8
                busy))
        → d.fork_name ≡ codes "deploy"
        → d
          ≡ held
              (codes "deploy")
              (codes "/p/deploy.md")
              (codes "idle")
              false
              (codes "a" ∷ codes "b" ∷ [])
              8)
list_pending_deps-insert_pending_dep_example =
    list_pending_deps-insert_pending_dep (codes "s1") (codes "deploy") (codes "/p/deploy.md")
      (codes "idle") false (codes "a" ∷ codes "b" ∷ []) 8 busy (a-IsListable, (b-IsListable, tt))

list_pending_deps-comma_example :
    In
      (held
        (codes "deploy")
        (codes "/p/deploy.md")
        (codes "idle")
        false
        (codes "a" ∷ codes "b" ∷ [])
        8)
      (list_pending_deps (codes "s1") (
        insert_pending_dep
          (codes "s1")
          (codes "deploy")
          (codes "/p/deploy.md")
          (codes "idle")
          false
          (codes "a,b" ∷ [])
          8
          busy))
    × ((d : PendingDep)
        → In d (
            list_pending_deps (codes "s1") (
              insert_pending_dep
                (codes "s1")
                (codes "deploy")
                (codes "/p/deploy.md")
                (codes "idle")
                false
                (codes "a,b" ∷ [])
                8
                busy))
        → d.fork_name ≡ codes "deploy"
        → d
          ≡ held
              (codes "deploy")
              (codes "/p/deploy.md")
              (codes "idle")
              false
              (codes "a" ∷ codes "b" ∷ [])
              8)
list_pending_deps-comma_example =
    list_pending_deps-comma (codes "s1") (codes "deploy") (codes "/p/deploy.md") (codes "idle")
      (codes "a") (codes "b") false 8 busy a-IsListable b-IsListable
