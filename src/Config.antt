-- ===== src/Config.antt =====
-- crates/autofork-core/src/config.rs: the effective configuration of a project.
pub mod Layers
pub mod Paths
pub mod Tests
use forksan.Prelude.{
  ℕ, Bool, true, false, not, ◌&&◌, List, [], ◌∷◌, ◌++◌, Option, none, some, Text, codes, is_empty,
  contains, text_eq, ◌==◌, if◌then◌else◌,
}
use forksan.Duration.{parse_duration_str}
use forksan.FileSystem.{FileSystem, join_path}

-- The effective configuration. The throttles are a map from tags.
pub record Config : Type 0 where
  pub default_idle_deadline_secs : ℕ
  pub session_timeout_secs : ℕ
  pub quiet_period_secs : ℕ
  pub wake_debounce_secs : ℕ
  pub enable_tags : Option (List Text)
  pub disable_tags : Option (List Text)
  pub tag_throttles : List (Text × ℕ)

abbrev pub default_config : Config
default_config = record {
  default_idle_deadline_secs = 600;
  session_timeout_secs = 43200;
  quiet_period_secs = 1200;
  wake_debounce_secs = 5;
  enable_tags = none;
  disable_tags = none;
  tag_throttles = [];
}

-- `toml::Value`, with the contents that are read: an i64 is kept with its sign.
pub data TomlValue : Type 0 where
  integer : ℕ → TomlValue
  negative : ℕ → TomlValue
  string : Text → TomlValue
  float : TomlValue
  boolean : Bool → TomlValue
  datetime : TomlValue
  array : TomlValue
  table : TomlValue

-- The tables are in the order of their keys.
pub record RawConfig : Type 0 where
  pub default_idle_deadline : Option TomlValue
  pub session_timeout : Option TomlValue
  pub quiet_period : Option TomlValue
  pub wake_debounce : Option TomlValue
  pub enable_tags : Option (List Text)
  pub disable_tags : Option (List Text)
  pub tag_throttles : List (Text × TomlValue)
  pub concurrency : Option TomlValue
  pub fork_timeout : Option TomlValue
  pub run_timeout : Option TomlValue
  pub claude_bin : Option TomlValue
  pub context_window : Option TomlValue
  pub models : List (Text × TomlValue)
  pub report_ttl : Option TomlValue
  pub poll_budget_chars : Option TomlValue
  pub permission_mode : Option TomlValue
  pub isolation : Option TomlValue

-- `toml::from_str` into the raw shape, and the message of a text that it refuses.
pub record Toml : Type 0 where
  pub from_str : Text → Option RawConfig
  pub error : Text → Text

abbrev global_only : List Text
global_only = codes "quiet_period" ∷ []

unfoldable pub toml_duration : TomlValue → Option ℕ
toml_duration (integer n) = some n
toml_duration (string s) = parse_duration_str s
toml_duration _ = none

-- What is parsed, and the warnings that are pushed.
unfoldable pub parse_toml_duration : TomlValue → Text → Option ℕ × List Text
unfolding toml_duration
parse_toml_duration v key = elim (toml_duration v) [
  | some secs ↦ (some secs, [])
  | none ↦ (none, (codes "invalid duration for '" ++ (key ++ codes "', ignoring")) ∷ [])
]

-- The closure `dur` of `apply_layer`.
unfoldable pub dur : Bool → Option TomlValue → Text → Option ℕ × List Text
dur project_level none key = (none, [])
dur project_level (some v) key =
    if project_level && contains global_only key
    then (none, (codes "'" ++ (key ++ codes "' is global-only; ignoring project value")) ∷ [])
    else parse_toml_duration v key

abbrev pub assign {ℓ} : {A : Type ℓ} → Option A → A → A
assign none old = old
assign (some new) old = new

abbrev pub assign_some {ℓ} : {A : Type ℓ} → Option A → Option A → Option A
assign_some none old = old
assign_some (some new) old = some new

-- `BTreeMap::insert`
unfoldable pub insert_throttle : Text → ℕ → List (Text × ℕ) → List (Text × ℕ)
insert_throttle tag secs [] = (tag, secs) ∷ []
insert_throttle tag secs ((key, old) ∷ rest) =
    let later = insert_throttle tag secs rest in
    if key == tag then (tag, secs) ∷ rest else (key, old) ∷ later

unfoldable pub insert_parsed : Text → Option ℕ → List (Text × ℕ) → List (Text × ℕ)
insert_parsed tag none throttles = throttles
insert_parsed tag (some secs) throttles = insert_throttle tag secs throttles

unfoldable pub extend_throttles :
    List (Text × TomlValue) → List (Text × ℕ) → List (Text × ℕ) × List Text
unfolding insert_parsed
extend_throttles [] throttles = (throttles, [])
extend_throttles ((tag, v) ∷ raw) throttles =
    let (secs, warned) = parse_toml_duration v (codes "tag_throttles." ++ tag) in
    let (throttles', later) = extend_throttles raw (insert_parsed tag secs throttles) in
    (throttles', warned ++ later)

is_given {ℓ} : {A : Type ℓ} → Option A → Bool
is_given none = false
is_given (some a) = true

unfoldable pub deprecated : Bool → Text → List Text
deprecated present key =
    if present
    then (codes "'"
        ++ (key ++ codes "' is no longer used since v0.5 (forks run as fork subagents), ignoring"))
      ∷ []
    else []

unfoldable pub deprecations : RawConfig → List Text
unfolding deprecated is_given
deprecations raw =
    deprecated (is_given raw.concurrency) (codes "concurrency")
    ++ (deprecated (is_given raw.fork_timeout) (codes "fork_timeout")
        ++ (deprecated (is_given raw.run_timeout) (codes "run_timeout")
            ++ (deprecated (is_given raw.claude_bin) (codes "claude_bin")
                ++ (deprecated (is_given raw.context_window) (codes "context_window")
                    ++ (deprecated (not (is_empty raw.models)) (codes "models")
                        ++ (deprecated (is_given raw.report_ttl) (codes "report_ttl")
                            ++ (deprecated (is_given raw.poll_budget_chars)
                                  (codes "poll_budget_chars")
                                ++ (deprecated (is_given raw.permission_mode)
                                      (codes "permission_mode")
                                    ++ deprecated (is_given raw.isolation)
                                        (codes "isolation")))))))))

-- The configuration, and the warnings with those of this layer behind them.
unfoldable pub apply_layer : Bool → RawConfig → Config × List Text → Config × List Text
apply_layer project_level raw (cfg, warnings) =
    let (idle, w1) = dur project_level raw.default_idle_deadline (codes "default_idle_deadline") in
    let (timeout, w2) = dur project_level raw.session_timeout (codes "session_timeout") in
    let (quiet, w3) = dur project_level raw.quiet_period (codes "quiet_period") in
    let (debounce, w4) = dur project_level raw.wake_debounce (codes "wake_debounce") in
    let (throttles, w5) = extend_throttles raw.tag_throttles cfg.tag_throttles in
    (
      record {
        default_idle_deadline_secs = assign idle cfg.default_idle_deadline_secs;
        session_timeout_secs = assign timeout cfg.session_timeout_secs;
        quiet_period_secs = assign quiet cfg.quiet_period_secs;
        wake_debounce_secs = assign debounce cfg.wake_debounce_secs;
        enable_tags = assign_some raw.enable_tags cfg.enable_tags;
        disable_tags = assign_some raw.disable_tags cfg.disable_tags;
        tag_throttles = throttles;
      },
      warnings ++ (w1 ++ (w2 ++ (w3 ++ (w4 ++ (w5 ++ deprecations raw))))),
    )

unfoldable pub parse_layer : Toml → Text → Text → Option RawConfig × List Text
parse_layer toml path content = elim (toml.from_str content) [
  | some raw ↦ (some raw, [])
  | none ↦ (none, (codes "invalid config at " ++ (path ++ (codes ": " ++ toml.error content))) ∷ [])
]

unfoldable pub load_layer : FileSystem → Toml → Text → Option RawConfig × List Text
unfolding parse_layer
load_layer fs toml path = elim (fs.read_to_string path) [
  | none ↦ (none, [])
  | some content ↦ parse_layer toml path content
]

unfoldable pub apply_loaded :
    Bool → Option RawConfig × List Text → Config × List Text → Config × List Text
apply_loaded project_level (none, warned) (cfg, warnings) = (cfg, warnings ++ warned)
apply_loaded project_level (some raw, warned) (cfg, warnings) =
    apply_layer project_level raw (cfg, warnings ++ warned)

abbrev pub config_file : Text
config_file = codes ".autofork/config.toml"

unfoldable pub same_path : Option Text → Text → Bool
same_path none path = false
same_path (some p) path = p == path

unfoldable pub apply_home :
    FileSystem → Toml → Option Text → Config × List Text → Config × List Text
apply_home fs toml none done = done
apply_home fs toml (some user) done = apply_loaded false (load_layer fs toml user) done

-- The project's layer, unless its file is the user's.
unfoldable pub apply_project :
    FileSystem → Toml → Option Text → Option Text → Config × List Text → Config × List Text
unfolding same_path
apply_project fs toml none user done = done
apply_project fs toml (some root) user done =
    let path = join_path root config_file in
    if same_path user path then done else apply_loaded true (load_layer fs toml path) done

user_file : Option Text → Option Text
user_file none = none
user_file (some home) = some (join_path home config_file)

unfoldable pub load_config : FileSystem → Toml → Option Text → Option Text → Config × List Text
unfolding user_file
load_config fs toml project_root home =
    apply_project fs toml project_root (user_file home)
      (apply_home fs toml (user_file home) (default_config, []))

unfoldable pub load_config_at : FileSystem → Toml → Option Text → Text → Config × List Text
load_config_at fs toml project_root user_config =
    apply_project fs toml project_root (some user_config)
      (apply_loaded false (load_layer fs toml user_config) (default_config, []))
