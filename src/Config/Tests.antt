-- ===== src/Config/Tests.antt =====
-- The configuration at concrete files.
use forksan.Prelude.{
  wrapping_mul, parse_u64, trim, contains, starts_with, text_beq, ◌≡◌, refl, false, [], ◌∷◌, none,
  some, codes, text_eq, ◌==◌, if◌then◌else◌,
}
use forksan.FileSystem.{join_path, FileSystem, is_absolute}
use forksan.Config.{
  insert_throttle, parse_toml_duration, extend_throttles, dur, apply_layer, apply_loaded,
  apply_project, RawConfig, Toml, integer, string, load_config_at, default_config, load_layer,
}
use forksan.Config.Paths.{Env, Paths, socket}
use forksan.Duration.{parse_duration_str}

abbrev nothing_set : RawConfig
nothing_set = record {
  default_idle_deadline = none;
  session_timeout = none;
  quiet_period = none;
  wake_debounce = none;
  enable_tags = none;
  disable_tags = none;
  tag_throttles = [];
  concurrency = none;
  fork_timeout = none;
  run_timeout = none;
  claude_bin = none;
  context_window = none;
  models = [];
  report_ttl = none;
  poll_budget_chars = none;
  permission_mode = none;
  isolation = none;
}

abbrev user_layer : RawConfig
user_layer = record nothing_set {
  default_idle_deadline = some (string (codes "5m"));
  quiet_period = some (string (codes "30m"));
}

abbrev project_layer : RawConfig
project_layer = record nothing_set {
  default_idle_deadline = some (integer 120);
  quiet_period = some (string (codes "1h"));
  tag_throttles = (codes "slow", integer 60) ∷ [];
}

abbrev disk : FileSystem
disk = record {
  canonicalize = λ path. some path;
  is_dir = λ path. false;
  is_file = λ path. false;
  exists = λ path. false;
  read_dir = λ path. none;
  read_to_string = λ path.
      if path == codes "/home/.autofork/config.toml"
      then some (codes "user")
      else if path == codes "/p/.autofork/config.toml"
      then some (codes "project")
      else none;
  read_error = λ path. [];
}

abbrev toml : Toml
toml = record {
  from_str = λ content. if content == codes "user" then some user_layer else some project_layer;
  error = λ content. [];
}

load_config_at-layers :
    (load_config_at disk toml (some (codes "/p")) (codes "/home/.autofork/config.toml")).0
    ≡ record default_config {
      default_idle_deadline_secs = 120;
      quiet_period_secs = 1800;
      tag_throttles = (codes "slow", 60) ∷ [];
    }
unfolding load_config_at apply_project text_beq join_path starts_with apply_loaded load_layer
    apply_layer dur extend_throttles contains parse_toml_duration parse_duration_str insert_throttle
    trim parse_u64 wrapping_mul
load_config_at-layers = refl

abbrev env : Env
env = λ name. if name == codes "XDG_RUNTIME_DIR" then some (codes "/run/user/1000") else none

abbrev paths : Paths
paths = record { base = codes "/home/.autofork" }

socket-runtime : socket env paths ≡ codes "/run/user/1000/autofork.sock"
unfolding socket text_beq is_absolute starts_with join_path
socket-runtime = refl
