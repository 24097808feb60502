-- ===== src/Store/Completion.antt =====
-- Completions: the first terminal status of a spawn counts, once.
use forksan.Prelude.{
  ℕ, ◌≤◌, ◌≡◌, refl, ap, ◌∙◌, sym, Bool, true, false, ◌&&◌, List, [], ◌∷◌, Option, some, Text,
  text_eq, ◌==◌, ==_refl, ==_sound, arith, any, In, In-any, le→leb, Bool-cases, inl, inr, text_beq,
}
use forksan.Sql.{update_where}
use forksan.Sql.Laws.{count_where-any, any-update_where}
use forksan.Store.{
  Store, SpawnRecord, is_fork_spawn, is_notified, mark_spawn_terminal, fork_completed_since,
  is_completion, is_terminal, spawned,
}

is_fork_spawn-any :
    (sid : Text) (tool task : Option Text) (s : Store)
    → is_fork_spawn sid tool task s ≡ any (is_notified sid tool task) s.fork_spawns
unfolding is_fork_spawn
is_fork_spawn-any sid tool task s = count_where-any (is_notified sid tool task) s.fork_spawns

abbrev end_spawn : Text → ℕ → SpawnRecord → SpawnRecord
end_spawn status now r = record r { status = status; terminal_at = some now }

abbrev is_running : Text → Option Text → Option Text → SpawnRecord → Bool
is_running sid tool task r = r.status == spawned && is_notified sid tool task r

terminal-not_spawned : (status : Text) → is_terminal status ≡ true → (status == spawned) ≡ false
terminal-not_spawned status h = elim (Bool-cases (status == spawned)) [
  | inr e ↦ e
  | inl e ↦ absurd (clash (==_sound status spawned e) h)
]
  where
    spawned_runs : is_terminal spawned ≡ false
    spawned_runs = unfold text_beq in refl

    clash : status ≡ spawned → is_terminal status ≡ true → ⊥
    clash e q = cc (ap is_terminal e, spawned_runs)

update_twice :
    (p : SpawnRecord → Bool) (f g : SpawnRecord → SpawnRecord) (rs : List SpawnRecord)
    → ((r : SpawnRecord) → p (f r) ≡ false)
    → update_where p g (update_where p f rs) ≡ update_where p f rs
unfolding update_where
update_twice p f g [] h = refl
update_twice p f g (r ∷ rs) h = ground (arith, h r, update_twice p f g rs h)

abbrev ended : Text → Option Text → Option Text → Text → ℕ → Store → Store
ended sid tool task status now s = record s {
  fork_spawns = update_where (is_running sid tool task) (end_spawn status now) s.fork_spawns;
}

mark-ours :
    (sid : Text) (tool task : Option Text) (status : Text) (now : ℕ) (s : Store)
    → is_fork_spawn sid tool task s ≡ true
    → mark_spawn_terminal sid tool task status now s ≡ (ended sid tool task status now s, true)
unfolding mark_spawn_terminal
mark-ours sid tool task status now s h = rw h

mark-other :
    (sid : Text) (tool task : Option Text) (status : Text) (now : ℕ) (s : Store)
    → is_fork_spawn sid tool task s ≡ false
    → mark_spawn_terminal sid tool task status now s ≡ (s, false)
unfolding mark_spawn_terminal
mark-other sid tool task status now s h = rw h

is_fork_spawn-ended :
    (sid : Text) (tool task : Option Text) (status : Text) (now : ℕ) (s : Store)
    → is_fork_spawn sid tool task (ended sid tool task status now s) ≡ is_fork_spawn sid tool task s
is_fork_spawn-ended sid tool task status now s =
    is_fork_spawn-any sid tool task (ended sid tool task status now s)
    ∙ (any-update_where (is_running sid tool task) (end_spawn status now)
          (is_notified sid tool task) s.fork_spawns (λ r h. refl)
        ∙ sym (is_fork_spawn-any sid tool task s))

-- The outcome says whether the ids name a recorded spawn of the session, and marking does not change
-- whether they do.
pub mark_spawn_terminal-matched :
    (sid : Text) (tool task : Option Text) (status : Text) (now : ℕ) (s : Store)
    → ((mark_spawn_terminal sid tool task status now s).1 ≡ is_fork_spawn sid tool task s)
      × (is_fork_spawn sid tool task (mark_spawn_terminal sid tool task status now s).0
          ≡ is_fork_spawn sid tool task s)
mark_spawn_terminal-matched sid tool task status now s =
    elim (Bool-cases (is_fork_spawn sid tool task s)) [
      | inl ours ↦
          rw (mark-ours sid tool task status now s ours)
            (sym ours, is_fork_spawn-ended sid tool task status now s)
      | inr other ↦ rw (mark-other sid tool task status now s other) (sym other, refl)
    ]

-- After a notification with a terminal status, a second one with the same ids changes nothing: the
-- first status and time stay.
pub mark_spawn_terminal-twice :
    (sid : Text) (tool task : Option Text) (first second : Text) (now later : ℕ) (s : Store)
    → is_terminal first ≡ true
    → (mark_spawn_terminal sid tool task second later
        (mark_spawn_terminal sid tool task first now s).0).0
      ≡ (mark_spawn_terminal sid tool task first now s).0
mark_spawn_terminal-twice sid tool task first second now later s h =
    elim (Bool-cases (is_fork_spawn sid tool task s)) [
      | inr other ↦ rw (
        mark-other sid tool task first now s other,
        mark-other sid tool task second later s other,
      )
      | inl ours ↦
          rw
            (
              mark-ours sid tool task first now s ours,
              mark-ours sid tool task second later (ended sid tool task first now s)
                  (is_fork_spawn-ended sid tool task first now s ∙ ours),
            )
            (λ i. record s {
              fork_spawns =
                  update_twice (is_running sid tool task) (end_spawn first now)
                    (end_spawn second later) s.fork_spawns
                    (λ r. stopped (is_notified sid tool task r)) i;
            })
    ]
  where
    stopped : (b : Bool) → (first == spawned && b) ≡ false
    stopped b = rw (terminal-not_spawned first h)

In-update_where :
    (p : SpawnRecord → Bool) (f : SpawnRecord → SpawnRecord) (r : SpawnRecord)
    (rs : List SpawnRecord)
    → In r rs
    → p r ≡ true
    → In (f r) (update_where p f rs)
unfolding update_where
In-update_where p f r [] m h = absurd m
In-update_where p f r (x ∷ rs) (inl e) h = inl (rw (sym (ap p e) ∙ h) (ap f e))
In-update_where p f r (x ∷ rs) (inr m) h = inr (In-update_where p f r rs m h)

-- When a notification with a terminal status names a recorded spawn of the session that is still
-- running and whose fork name is known, the fork counts as completed for whoever waits since that
-- time or earlier.
pub fork_completed_since-mark_spawn_terminal :
    (sid name status : Text) (tool task : Option Text) (since now : ℕ) (s : Store) (r : SpawnRecord)
    → In r s.fork_spawns
    → r.session_id ≡ sid
    → r.fork_name ≡ some name
    → r.status ≡ spawned
    → is_notified sid tool task r ≡ true
    → is_terminal status ≡ true
    → since ≤ now
    → fork_completed_since sid name since (mark_spawn_terminal sid tool task status now s).0 ≡ true
unfolding fork_completed_since
fork_completed_since-mark_spawn_terminal sid name status tool task since now s r m es en er hn ht
      le =
    rw
      (mark-ours sid tool task status now s (
        is_fork_spawn-any sid tool task s
        ∙ In-any (is_notified sid tool task) s.fork_spawns r m hn))
      (count_where-any (is_completion sid name since) _
        ∙ In-any (is_completion sid name since)
            (update_where (is_running sid tool task) (end_spawn status now) s.fork_spawns)
            (end_spawn status now r)
            (In-update_where (is_running sid tool task) (end_spawn status now) r s.fork_spawns m
              running)
            completed)
  where
    running : is_running sid tool task r ≡ true
    running = rw (er, ==_refl spawned, hn)

    completed : is_completion sid name since (end_spawn status now r) ≡ true
    completed = rw (es, en, ==_refl sid, ==_refl name, ht, le→leb since now le)
