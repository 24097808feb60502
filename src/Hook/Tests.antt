-- ===== src/Hook/Tests.antt =====
-- A Stop hook that is woken, and the prompt that comes of it.
use forksan.Prelude.{
  parse_u64, contains, trim, split, text_beq, ◌≡◌, refl, false, not, [], ◌∷◌, none, some, codes,
  text_eq, ◌==◌, if◌then◌else◌, ◌≢◌, nat_eq,
}
use forksan.Discovery.Tests.{disk}
use forksan.Wake.{Ids, DueFork, looks_like_continuation, build_wake_payload, build_release_payload}
use forksan.Events.{handle_event}
use forksan.Waits.Tests.{fresh, machine, stopped}
use forksan.Protocol.{wake_up, hello_info}
use forksan.Config.Paths.{autofork_home_from_env, Env}
use forksan.Client.{
  leading_digits, parse_version, version_lt, semver_lt, request, ensure_current_version, Wire,
  connected,
}
use forksan.Frontmatter.Values.{IsClean}
use forksan.Hook.{or_none, HookInput, Host, stop_wait_hook, sniff, tags_from_env, run_hook_inner}
use forksan.Hook.Sniff.{sniff-looks_like_continuation, tags_from_env-IsClean}
use forksan.Hook.Wakes.{prompted, IsKept, wake-IsKept}
use forksan.Frontmatter.Parse.{push_pieces}

abbrev env : Env
env name =
    if name == codes "HOME"
    then some (codes "/home")
    else if name == codes "AUTOFORK_ENABLE_TAGS"
    then some (codes " a, b,a,, ")
    else none

-- A daemon of the same version that wakes the second request.
abbrev wire : Wire
wire = record {
  to_string = λ req. some (if req.id == 1 then codes "hello" else codes "stop");
  to_string_error = λ req. [];
  from_str = λ text. some (record {
    proto = 1;
    id = 1;
    body = if text == codes "woken" then wake_up (codes "spawn it") else hello_info (codes "0.1.0");
  });
  from_str_error = λ text. [];
  exchange = λ text. some (if text == codes "stop\n" then codes "woken\n" else codes "same\n");
}

abbrev input : HookInput
input = record {
  session_id = codes "s1";
  transcript_path = none;
  cwd = some (codes "/p");
  model = none;
  prompt = none;
}

abbrev host : Host
host = record {
  env = env;
  stdin = some (codes "input");
  from_str = λ text. some input;
  current_dir = none;
  disk = disk;
  version = codes "0.1.0";
  connect = some (wire, connected);
  connect_or_spawn = some (wire, connected);
  respawned = none;
}

abbrev ids : Ids
ids = record { session_id = codes "s1"; conversation_id = codes "c1"; project_root = codes "/p" }

abbrev journal : DueFork
journal = record {
  name = codes "journal";
  path = codes "/p/.autofork/forks/journal.md";
  trigger = codes "idle:10m";
  overlap = false;
  after = [];
}

wake-IsKept_example :
    IsKept fresh (codes "s1") (
      handle_event machine.outside
        (prompted host input (codes "/p") (build_wake_payload ids (journal ∷ []) []))
        (record { busy = 900; now = 900; ingested = 900 })
        fresh)
    × IsKept fresh (codes "s1") (
        handle_event machine.outside
          (prompted host input (codes "/p") (build_release_payload ids (journal ∷ [])))
          (record { busy = 900; now = 900; ingested = 900 })
          fresh)
wake-IsKept_example =
    wake-IsKept host input (codes "/p") machine.outside
      (record { busy = 900; now = 900; ingested = 900 }) fresh ids journal [] []

sniff-looks_like_continuation_example :
    (sniff (some (codes "hello")) stopped).waking
    ≡ some (not (looks_like_continuation (codes "hello")))
sniff-looks_like_continuation_example = sniff-looks_like_continuation (codes "hello") stopped

two_tags : tags_from_env env (codes "AUTOFORK_ENABLE_TAGS") ≡ some (codes "a" ∷ codes "b" ∷ [])
unfolding tags_from_env text_beq or_none push_pieces split trim contains
two_tags = refl

tags_from_env-IsClean_example :
    IsClean [] (codes "a" ∷ codes "b" ∷ []) × ((codes "a" ∷ codes "b" ∷ []) ≢ [])
tags_from_env-IsClean_example =
    tags_from_env-IsClean env (codes "AUTOFORK_ENABLE_TAGS") (codes "a" ∷ codes "b" ∷ []) two_tags

run_hook_inner-woken :
    (run_hook_inner host stop_wait_hook).1
    ≡ record { exit_code = 2; stderr = codes "spawn it\n"; spawned = false }
unfolding run_hook_inner text_beq autofork_home_from_env ensure_current_version request trim
    semver_lt version_lt parse_version split parse_u64 leading_digits
run_hook_inner-woken = refl
