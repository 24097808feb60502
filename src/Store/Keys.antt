-- ===== src/Store/Keys.antt =====
-- The primary keys of the tables, but for the row number of fork_runs, and every statement that writes.
pub mod Fires
use forksan.Prelude.{
  Bool-cases, ℕ, inl, inr, Bool-cases, ◌≡◌, refl, ap, Bool, true, ◌&&◌, List, [], ◌∷◌, Option, Text,
  text_eq, ◌==◌, ==_refl, arith,
}
use forksan.Sql.Keys.{
  HasUnique, update_where-HasUnique, delete_where-HasUnique, insert_or_ignore-HasUnique,
  insert_or_replace-HasUnique, upsert-HasUnique,
}
use forksan.Store.{
  Store, empty, SessionRecord, RosterRecord, FireRecord, SpawnRecord, PendingRecord, SessionEvent,
  upsert_session, bump_pause_epoch, set_pause_started_at_if_unset, set_last_activity,
  set_transcript_gauge, close_session, queue_fork, touch_fork_ran, try_latch_fire,
  record_issued_run, record_spawn, set_spawn_task_id, mark_spawn_terminal, insert_pending_dep,
  delete_pending_dep, clear_pending_deps, is_fork_spawn,
}

-- A statement that writes, with its parameters.
pub data Statement : Type 0 where
  upserts : SessionEvent → ℕ → Statement
  bumps : Text → Statement
  starts_pause sets_activity : Text → ℕ → Statement
  sets_gauge : Text → ℕ → Option ℕ → Statement
  closes : Text → Statement
  queues : Text → Text → Text → ℕ → Statement
  touches : Text → Text → ℕ → Statement
  latches : Text → Text → Text → ℕ → Statement
  issues : Text → Text → Text → Option Text → ℕ → Statement
  spawns : Text → Text → Option Text → ℕ → Statement
  names_task : Text → Text → Text → Statement
  ends : Text → Option Text → Option Text → Text → ℕ → Statement
  holds : Text → Text → Text → Text → Bool → List Text → ℕ → Statement
  releases : Text → Text → Statement
  clears : Text → Statement

unfoldable pub execute : Statement → Store → Store
execute (upserts e now) s = upsert_session e now s
execute (bumps sid) s = bump_pause_epoch sid s
execute (starts_pause sid now) s = set_pause_started_at_if_unset sid now s
execute (sets_activity sid now) s = set_last_activity sid now s
execute (sets_gauge sid offset tokens) s = set_transcript_gauge sid offset tokens s
execute (closes sid) s = close_session sid s
execute (queues sid name path now) s = (queue_fork sid name path now s).0
execute (touches sid name now) s = touch_fork_ran sid name now s
execute (latches sid name label now) s = (try_latch_fire sid name label now s).0
execute (issues sid name label tags now) s = record_issued_run sid name label tags now s
execute (spawns sid tool name now) s = record_spawn sid tool name now s
execute (names_task sid tool task) s = set_spawn_task_id sid tool task s
execute (ends sid tool task status now) s = (mark_spawn_terminal sid tool task status now s).0
execute (holds sid name path label overlap preds now) s =
    insert_pending_dep sid name path label overlap preds now s
execute (releases sid name) s = delete_pending_dep sid name s
execute (clears sid) s = (clear_pending_deps sid s).0

unfoldable pub run : List Statement → Store → Store
run [] s = s
run (q ∷ qs) s = run qs (execute q s)

abbrev pub roster_key : RosterRecord → Text × Text
roster_key r = (r.session_id, r.fork_name)

abbrev pub fire_key : FireRecord → Text × Text × Text
fire_key r = (r.session_id, r.fork_name, r.trigger_label)

abbrev pub spawn_key : SpawnRecord → Text × Text
spawn_key r = (r.session_id, r.tool_use_id)

abbrev pub pending_key : PendingRecord → Text × Text
pending_key r = (r.session_id, r.fork_name)

-- These keys are unique.
pub record IsKeyed (s : Store) : Type 0 where
  pub sessions : HasUnique SessionRecord.session_id s.sessions
  pub fork_roster : HasUnique roster_key s.fork_roster
  pub fork_fires : HasUnique fire_key s.fork_fires
  pub fork_spawns : HasUnique spawn_key s.fork_spawns
  pub pending_deps : HasUnique pending_key s.pending_deps

empty-IsKeyed : IsKeyed empty
empty-IsKeyed = record {
  sessions = tt;
  fork_roster = tt;
  fork_fires = tt;
  fork_spawns = tt;
  pending_deps = tt;
}

eq_text : (a b : Text) → a ≡ b → (a == b) ≡ true
eq_text a b e = rw e (==_refl b)

both : (a b c d : Text) → a ≡ c → b ≡ d → (a == c && b == d) ≡ true
both a b c d e f = ground (arith, eq_text a c e, eq_text b d f)

three : (a b c d e f : Text) → a ≡ d → b ≡ e → c ≡ f → (a == d && (b == e && c == f)) ≡ true
three a b c d e f p q r = ground (arith, eq_text a d p, eq_text b e q, eq_text c f r)

-- A statement writes one table, or closes a session.
module _ (s : Store) (k : IsKeyed s) where
  with_sessions :
      (rows : List SessionRecord)
      → HasUnique SessionRecord.session_id rows
      → IsKeyed (record s { sessions = rows })
  with_sessions rows u = record {
    sessions = u;
    fork_roster = k.fork_roster;
    fork_fires = k.fork_fires;
    fork_spawns = k.fork_spawns;
    pending_deps = k.pending_deps;
  }

  with_roster :
      (rows : List RosterRecord)
      → HasUnique roster_key rows
      → IsKeyed (record s { fork_roster = rows })
  with_roster rows u = record {
    sessions = k.sessions;
    fork_roster = u;
    fork_fires = k.fork_fires;
    fork_spawns = k.fork_spawns;
    pending_deps = k.pending_deps;
  }

  with_fires :
      (rows : List FireRecord) → HasUnique fire_key rows → IsKeyed (record s { fork_fires = rows })
  with_fires rows u = record {
    sessions = k.sessions;
    fork_roster = k.fork_roster;
    fork_fires = u;
    fork_spawns = k.fork_spawns;
    pending_deps = k.pending_deps;
  }

  with_spawns :
      (rows : List SpawnRecord)
      → HasUnique spawn_key rows
      → IsKeyed (record s { fork_spawns = rows })
  with_spawns rows u = record {
    sessions = k.sessions;
    fork_roster = k.fork_roster;
    fork_fires = k.fork_fires;
    fork_spawns = u;
    pending_deps = k.pending_deps;
  }

  with_pending :
      (rows : List PendingRecord)
      → HasUnique pending_key rows
      → IsKeyed (record s { pending_deps = rows })
  with_pending rows u = record {
    sessions = k.sessions;
    fork_roster = k.fork_roster;
    fork_fires = k.fork_fires;
    fork_spawns = k.fork_spawns;
    pending_deps = u;
  }

  ends-IsKeyed :
      (sid : Text) (tool task : Option Text) (status : Text) (now : ℕ)
      → IsKeyed (mark_spawn_terminal sid tool task status now s).0
  unfolding mark_spawn_terminal
  ends-IsKeyed sid tool task status now = elim (Bool-cases (is_fork_spawn sid tool task s)) [
    | inl ours ↦ rw ours (
        with_spawns _
          (update_where-HasUnique spawn_key _ _ s.fork_spawns (λ x. refl) k.fork_spawns))
    | inr other ↦ rw other k
  ]

  pub execute-IsKeyed : (q : Statement) → IsKeyed (execute q s)
  unfolding execute upsert_session bump_pause_epoch set_pause_started_at_if_unset set_last_activity
      set_transcript_gauge close_session queue_fork touch_fork_ran try_latch_fire record_issued_run
      record_spawn set_spawn_task_id insert_pending_dep delete_pending_dep clear_pending_deps
  execute-IsKeyed (upserts e now) = with_sessions _ (
      upsert-HasUnique SessionRecord.session_id _ _ _ s.sessions
        (λ x q. eq_text x.session_id e.session_id q) (λ x. refl) k.sessions)
  execute-IsKeyed (bumps sid) =
      with_sessions _
        (update_where-HasUnique SessionRecord.session_id _ _ s.sessions (λ x. refl) k.sessions)
  execute-IsKeyed (starts_pause sid now) =
      with_sessions _
        (update_where-HasUnique SessionRecord.session_id _ _ s.sessions (λ x. refl) k.sessions)
  execute-IsKeyed (sets_activity sid now) =
      with_sessions _
        (update_where-HasUnique SessionRecord.session_id _ _ s.sessions (λ x. refl) k.sessions)
  execute-IsKeyed (sets_gauge sid offset tokens) =
      with_sessions _
        (update_where-HasUnique SessionRecord.session_id _ _ s.sessions (λ x. refl) k.sessions)
  execute-IsKeyed (closes sid) = record {
    sessions =
        update_where-HasUnique SessionRecord.session_id _ _ s.sessions (λ x. refl) k.sessions;
    fork_roster = delete_where-HasUnique roster_key _ s.fork_roster k.fork_roster;
    fork_fires = delete_where-HasUnique fire_key _ s.fork_fires k.fork_fires;
    fork_spawns = delete_where-HasUnique spawn_key _ s.fork_spawns k.fork_spawns;
    pending_deps = delete_where-HasUnique pending_key _ s.pending_deps k.pending_deps;
  }
  execute-IsKeyed (queues sid name path now) = with_roster _ (
      insert_or_ignore-HasUnique roster_key _ _ s.fork_roster
        (λ x q. both x.session_id x.fork_name sid name (ap (λ p. p.0) q) (ap (λ p. p.1) q))
        k.fork_roster)
  execute-IsKeyed (touches sid name now) =
      with_roster _ (update_where-HasUnique roster_key _ _ s.fork_roster (λ x. refl) k.fork_roster)
  execute-IsKeyed (latches sid name label now) = with_fires _ (
      insert_or_ignore-HasUnique fire_key _ _ s.fork_fires
        (λ x q.
          three x.session_id x.fork_name x.trigger_label sid name label (ap (λ p. p.0) q)
            (ap (λ p. p.1) q) (ap (λ p. p.2) q))
        k.fork_fires)
  execute-IsKeyed (issues sid name label tags now) = record {
    sessions = k.sessions;
    fork_roster = k.fork_roster;
    fork_fires = k.fork_fires;
    fork_spawns = k.fork_spawns;
    pending_deps = k.pending_deps;
  }
  execute-IsKeyed (spawns sid tool name now) = with_spawns _ (
      insert_or_ignore-HasUnique spawn_key _ _ s.fork_spawns
        (λ x q. both x.session_id x.tool_use_id sid tool (ap (λ p. p.0) q) (ap (λ p. p.1) q))
        k.fork_spawns)
  execute-IsKeyed (names_task sid tool task) =
      with_spawns _ (update_where-HasUnique spawn_key _ _ s.fork_spawns (λ x. refl) k.fork_spawns)
  execute-IsKeyed (ends sid tool task status now) = ends-IsKeyed sid tool task status now
  execute-IsKeyed (holds sid name path label overlap preds now) = with_pending _ (
      insert_or_replace-HasUnique pending_key _ _ s.pending_deps
        (λ x q. both x.session_id x.fork_name sid name (ap (λ p. p.0) q) (ap (λ p. p.1) q))
        k.pending_deps)
  execute-IsKeyed (releases sid name) =
      with_pending _ (delete_where-HasUnique pending_key _ s.pending_deps k.pending_deps)
  execute-IsKeyed (clears sid) =
      with_pending _ (delete_where-HasUnique pending_key _ s.pending_deps k.pending_deps)

run_from-IsKeyed : (qs : List Statement) (s : Store) → IsKeyed s → IsKeyed (run qs s)
unfolding run
run_from-IsKeyed [] s k = k
run_from-IsKeyed (q ∷ qs) s k = run_from-IsKeyed qs (execute q s) (execute-IsKeyed s k q)

-- Statements run on a fresh database give a store with unique keys.
pub run-IsKeyed : (qs : List Statement) → IsKeyed (run qs empty)
run-IsKeyed qs = run_from-IsKeyed qs empty empty-IsKeyed
