-- ===== src/Commands.antt =====
-- crates/autofork/src/commands.rs: what the commands print. A line is a text without its newline, and an
-- error is the message that is returned.
pub mod Runs
pub mod Tests
use forksan.Prelude.{
  ℕ, ◌-◌, ◌/◌, Bool, true, false, not, ◌&&◌, List, [], ◌∷◌, ◌++◌, map, filter, find, contains,
  length, take, Option, none, some, Text, codes, text_eq, nat_eq, ◌==◌, ltb, is_empty, join, split,
  to_string, if◌then◌else◌,
}
use forksan.FileSystem.{FileSystem, join_path}
use forksan.Discovery.{ForkEntry, discover_forks, project_root}
use forksan.Frontmatter.File.{RawFork}
use forksan.Wake.{DueFork, Ids, build_wake_payload}
use forksan.Protocol.{
  ResponseBody, status_info, fork_list, pruned, SessionInfo, RunInfo, ForkInfo, StatusInfo,
}

pub data Printed : Type 0 where
  lines : List Text → Printed
  refused : Text → Printed

abbrev unexpected : Printed
unexpected = refused (codes "unexpected response")

unfoldable pub fork_enable_hint_lines : Bool → List Text
fork_enable_hint_lines env_set =
    (if env_set
      then codes "        CLAUDE_CODE_FORK_SUBAGENT is set (fork subagent force-enabled)"
      else codes "        note: CLAUDE_CODE_FORK_SUBAGENT is not set")
    ∷ codes "        a current version can still lack the fork type due to a staged server-side"
    ∷ codes
        "        rollout; force-enable it by adding {\"env\": {\"CLAUDE_CODE_FORK_SUBAGENT\": \"1\"}}"
    ∷ codes "        to ~/.claude/settings.json (persistent; preferred over a shell export)"
    ∷ []

abbrev pub agent_file : Text → Text
agent_file dir = join_path dir (codes ".claude/agents/fork.md")

user_agents : FileSystem → Option Text → List Text
user_agents fs none = []
user_agents fs (some home) = if fs.is_file (agent_file home) then agent_file home ∷ [] else []

unfoldable pub impostor_agent_files : FileSystem → Option Text → Text → List Text
unfolding user_agents
impostor_agent_files fs home root =
    let out = user_agents fs home in
    let p = agent_file root in if fs.is_file p && not (contains out p) then out ++ (p ∷ []) else out

-- `(now - ts).max(0)` is the difference on natural numbers.
unfoldable pub fmt_ago : ℕ → ℕ → Text
fmt_ago now ts =
    let d = now - ts in
    if ltb d 60
    then to_string d ++ codes "s ago"
    else if ltb d 3600
    then to_string (d / 60) ++ codes "m ago"
    else if ltb d 86400
    then to_string (d / 3600) ++ codes "h ago"
    else to_string (d / 86400) ++ codes "d ago"

tokens_text : Option ℕ → Text
tokens_text none = []
tokens_text (some n) = codes ", ~" ++ (to_string n ++ codes " prompt tokens")

-- An id is ASCII, so its first eight bytes are characters.
session_line : ℕ → SessionInfo → Text
unfolding tokens_text fmt_ago
session_line t s =
    codes "  session "
    ++ (take 8 s.session_id
        ++ (codes " ["
            ++ (s.status
                ++ (codes "]"
                    ++ ((if s.stale then codes " [stale?]" else [])
                        ++ (codes " "
                            ++ (s.project_root
                                ++ (codes " (active "
                                    ++ (fmt_ago t s.last_activity
                                        ++ (tokens_text s.prompt_tokens ++ codes ")"))))))))))

run_line : ℕ → RunInfo → Text
unfolding fmt_ago
run_line t r =
    codes "  "
    ++ (r.fork
        ++ (codes " ("
            ++ (r.trigger ++ (codes ") [" ++ (r.state ++ (codes "] " ++ fmt_ago t r.started_at))))))

recent_lines : ℕ → List RunInfo → List Text
unfolding run_line
recent_lines t [] = []
recent_lines t (r ∷ rs) = codes "recent wakes:" ∷ map (run_line t) (r ∷ rs)

unfoldable pub status_lines : ℕ → ResponseBody → Printed
unfolding session_line recent_lines
status_lines t (status_info info) = lines (
    (codes "autofork daemon v"
      ++ (info.version ++ (codes " (pid " ++ (to_string info.pid ++ codes ")"))))
    ∷ (codes "sessions: " ++ to_string (length info.sessions))
    ∷ (map (session_line t) info.sessions ++ recent_lines t info.recent_runs))
status_lines t body = unexpected

pruned_line : ℕ → SessionInfo → Text
unfolding fmt_ago
pruned_line t s =
    codes "  session "
    ++ (take 8 s.session_id
        ++ (codes " "
            ++ (s.project_root
                ++ (codes " (last active " ++ (fmt_ago t s.last_activity ++ codes ")")))))

unfoldable pub prune_lines : ℕ → ResponseBody → Printed
unfolding pruned_line
prune_lines t (pruned []) = lines (codes "no stale sessions" ∷ [])
prune_lines t (pruned (s ∷ ss)) = lines (
    (codes "closed "
      ++ (to_string (length (s ∷ ss))
          ++ (codes " stale session" ++ ((if is_empty ss then [] else codes "s") ++ codes ":"))))
    ∷ map (pruned_line t) (s ∷ ss))
prune_lines t body = unexpected

when_some : Option ℕ → List Text
when_some none = []
when_some (some t) = (codes "throttle: " ++ (to_string t ++ codes "s")) ∷ []

listed : Text → List Text → List Text
listed what [] = []
listed what (x ∷ xs) = (what ++ join (codes ", ") (x ∷ xs)) ∷ []

details : ForkInfo → List Text
unfolding when_some listed
details f =
    (codes "runs on: " ++ join (codes ", ") f.triggers)
    ∷ (when_some f.throttle_secs
        ++ (listed (codes "after: ") f.after
            ++ (listed (codes "tags: ") f.tags
                ++ (if f.overlap then codes "overlap allowed" ∷ [] else []))))

described_by : Option Text → Text
described_by none = codes "(no description)"
described_by (some d) = d

fork_lines : ForkInfo → List Text
unfolding details described_by
fork_lines f =
    (codes "  " ++ (f.name ++ (codes " — " ++ described_by f.description)))
    ∷ (codes "      " ++ join (codes " | ") (details f))
    ∷ (codes "      " ++ f.path)
    ∷ map (λ w. codes "      warning: " ++ w) f.warnings

all_fork_lines : List ForkInfo → List Text
unfolding fork_lines
all_fork_lines [] = []
all_fork_lines (f ∷ fs) = fork_lines f ++ all_fork_lines fs

unfoldable pub list_forks_lines : Text → ResponseBody → Printed
unfolding all_fork_lines
list_forks_lines root (fork_list []) =
    lines
      (codes "no forks discovered (looked for .autofork/forks/ up from here and user-level)" ∷ [])
list_forks_lines root (fork_list (f ∷ fs)) =
    lines ((codes "forks visible from " ++ (root ++ codes " :")) ∷ all_fork_lines (f ∷ fs))
list_forks_lines root body = unexpected

-- `run_fork`: what is asked for, among the forks that the directory sees.
pub data Picked : Type 0 where
  picked : List ForkEntry → Picked
  nothing_fits : Text → Picked

picked_one : Text → Text → Option ForkEntry → Picked
picked_one name cwd none =
    nothing_fits (codes "no fork named '" ++ (name ++ (codes "' visible from " ++ cwd)))
picked_one name cwd (some e) = picked (e ∷ [])

picked_all : Text → Text → List ForkEntry → Picked
picked_all tag cwd [] =
    nothing_fits (codes "no forks with tag '" ++ (tag ++ (codes "' visible from " ++ cwd)))
picked_all tag cwd (e ∷ es) = picked (e ∷ es)

unfoldable pub pick : Option Text → Option Text → Text → List ForkEntry → Picked
unfolding picked_one picked_all
pick (some name) tag cwd entries = picked_one name cwd (find (λ e. e.name == name) entries)
pick none (some tag) cwd entries =
    picked_all tag cwd (filter (λ e. contains e.parsed.def.tags tag) entries)
pick none none cwd entries = nothing_fits (codes "provide a fork name or --tag <tag>")

unfoldable pub manual : ForkEntry → DueFork
manual e = record {
  name = e.name;
  path = e.path;
  trigger = codes "manual";
  overlap = e.parsed.def.overlap;
  after = [];
}

abbrev pub this_session : Text → Ids
this_session root = record {
  session_id = codes "(the current session)";
  conversation_id = codes "(the current conversation)";
  project_root = root;
}

paste : Text → Picked → Printed
unfolding manual
paste root (nothing_fits message) = refused message
paste root (picked es) = lines (
    codes "autofork can no longer spawn forks itself — forks run as fork subagents of an"
    ∷ codes "interactive session. Paste the following into an interactive Claude Code session"
    ∷ codes "to run the selected fork(s) now:"
    ∷ []
    ∷ build_wake_payload (this_session root) (map manual es) []
    ∷ [])

unfoldable pub run_fork :
    FileSystem → (Text → Option RawFork) → Text → Text → Option Text → Option Text → Printed
unfolding paste
run_fork fs from_str base cwd name tag =
    let found = discover_forks fs from_str cwd (some (join_path base (codes "forks"))) in
    paste (project_root fs cwd) (pick name tag cwd found.entries)
