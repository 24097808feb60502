-- ===== src/Wake.antt =====
-- crates/autofork-core/src/wake.rs: the text of a wake, and telling it from a user's prompt.
pub mod Continuation
pub mod Tests
use forksan.Prelude.{
  ℕ, Bool, true, false, ◌||◌, List, [], ◌∷◌, ◌++◌, map, Text, codes, join, trim_start, starts_with,
  contains_text, is_empty, length, ◌==◌, nat_eq, if◌then◌else◌,
}
use forksan.Notification.{task_notification_prefix}

abbrev pub wake_marker : Text
wake_marker = codes "source: autofork"

abbrev pub spawn_ctx_prefix : Text
spawn_ctx_prefix = codes "Context for this run: fork '"

unfoldable pub looks_like_continuation : Text → Bool
looks_like_continuation prompt =
    starts_with (trim_start prompt) task_notification_prefix || contains_text prompt wake_marker

-- A fork that is due.
pub record DueFork : Type 0 where
  pub name : Text
  pub path : Text
  pub trigger : Text
  pub overlap : Bool
  pub after : List Text

-- A fork that is held back until its predecessors finish.
pub record HeldFork : Type 0 where
  pub name : Text
  pub after : List Text

-- The ids that every block of a payload quotes.
pub record Ids : Type 0 where
  pub session_id : Text
  pub conversation_id : Text
  pub project_root : Text

unfoldable pub quoted_names : List Text → Text
quoted_names names = join (codes ", ") (map (λ p. codes "'" ++ (p ++ codes "'")) names)

unfoldable pub spawn_prompt : DueFork → Ids → Text
spawn_prompt fork ids =
    codes "Read the file "
    ++ (fork.path
        ++ (codes " and follow the instructions in its body. "
            ++ (spawn_ctx_prefix
                ++ (fork.name
                    ++ (codes "', trigger '"
                        ++ (fork.trigger
                            ++ (codes "', parent session "
                                ++ (ids.session_id
                                    ++ (codes ", conversation "
                                        ++ (ids.conversation_id
                                            ++ (codes ", project root "
                                                ++ (ids.project_root
                                                    ++ (codes
                                                          ". The conversation id is stable when a session is resumed (a resumed session gets a fresh session id); "
                                                        ++ codes
                                                            "key any per-conversation artifacts on it. Your final message is your report.")))))))))))))

unfoldable pub overlap_line : DueFork → Text
overlap_line fork =
    if fork.overlap
    then []
    else codes
        " If a previous run of this fork is still among your running background tasks, skip spawning it."

unfoldable pub root_block : DueFork → Ids → Text
unfolding spawn_prompt overlap_line
root_block fork ids =
    codes "---\nsource: autofork\ndue: "
    ++ (fork.name
        ++ (codes " (trigger: "
            ++ (fork.trigger
                ++ (codes
                      ")\n---\nSpawn a background fork subagent now: use the Agent tool with subagent_type \"fork\" and this prompt: \""
                    ++ (spawn_prompt fork ids
                        ++ (codes "\" Do not read that file yourself — only the fork reads it."
                            ++ overlap_line fork))))))

unfoldable pub release_block : DueFork → Ids → Text
unfolding spawn_prompt overlap_line quoted_names
release_block fork ids =
    let preds = quoted_names fork.after in
    codes "---\nsource: autofork\ndue: "
    ++ (fork.name
        ++ (codes " (trigger: "
            ++ (fork.trigger
                ++ (codes ") — released, "
                    ++ (preds
                        ++ (codes " finished\n---\nFork "
                            ++ (preds
                                ++ (codes
                                      " has finished; its completion notification (with its report) is earlier in this conversation. "
                                    ++ (codes
                                          "Spawn a background fork subagent now: use the Agent tool with subagent_type \"fork\" and this prompt: \""
                                        ++ (spawn_prompt fork ids
                                            ++ (codes " This fork runs after "
                                                ++ (preds
                                                    ++ (codes "; append the report(s) "
                                                        ++ (preds
                                                            ++ (codes
                                                            " returned in their completion notifications to this prompt, so the fork can build on them.\" "
                                                            ++ (codes
                                                            "Do not read that file yourself — only the fork reads it."
                                                            ++ overlap_line fork))))))))))))))))

unfoldable pub contingency : Text
contingency =
    codes " If the Agent tool reports \"Agent type 'fork' not found\" (or that the "
    ++ (codes "'fork' agent type is unavailable), first retry the exact same Agent call "
        ++ (codes "once. If it still fails, do NOT substitute another agent type (other agents "
            ++ (codes "don't inherit this conversation and cannot do a fork's job). Never create, "
                ++ (codes "install, or edit any agent definition (e.g. a file named fork.md under "
                    ++ (codes
                          ".claude/agents/) to work around a missing fork type — a custom agent cannot "
                        ++ (codes
                              "inherit this conversation and cannot do a fork's job, and a custom agent "
                            ++ (codes
                                  "named 'fork' shadows the real built-in type. Instead reply with one line "
                                ++ (codes
                                      "telling the user the fork agent type isn't loaded in this turn and that "
                                    ++ (codes
                                          "sending any next message will let the forks spawn. When the user next "
                                        ++ (codes
                                            "messages, spawn the due forks listed above before doing anything else."))))))))))

unfoldable pub closer : ℕ → Text
unfolding contingency
closer n_blocks =
    codes "After spawning "
    ++ ((if n_blocks == 1 then codes "the fork above" else codes "all forks above")
        ++ (codes ", reply with one short line acknowledging the background work and stop."
            ++ contingency))

unfoldable pub held_note : List HeldFork → Text
unfolding quoted_names
held_note [] = []
held_note (h ∷ hs) =
    codes "\n\nAlso due but held back by autofork until their predecessors finish: "
    ++ (join (codes ", ") (
          map
            (λ g.
              codes "'"
              ++ (HeldFork.name g
                  ++ (codes "' (after " ++ (quoted_names (HeldFork.after g) ++ codes ")"))))
            (h ∷ hs))
        ++ (codes
              ". Do not spawn these now — you will receive their spawn instructions in a later wake once the "
            ++ codes "predecessors' completion notifications arrive."))

unfoldable pub build_wake_payload : Ids → List DueFork → List HeldFork → Text
unfolding root_block closer held_note
build_wake_payload ids forks held =
    let blocks = map (λ f. root_block f ids) forks in
    join (codes "\n\n") blocks ++ (held_note held ++ (codes "\n\n" ++ closer (length blocks)))

unfoldable pub build_release_payload : Ids → List DueFork → Text
unfolding release_block closer
build_release_payload ids forks =
    let blocks = map (λ f. release_block f ids) forks in
    join (codes "\n\n") blocks ++ (codes "\n\n" ++ closer (length blocks))
