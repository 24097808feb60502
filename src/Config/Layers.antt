-- ===== src/Config/Layers.antt =====
-- What the layers add up to: for each key the project's value, else the user's, else the default.
use forksan.Prelude.{
  sym, ap, ◌∙◌, ap, sym, ◌∙◌, ℕ, ◌≡◌, refl, List, [], ◌∷◌, Option, none, some, Text, text_eq, ◌==◌,
  if◌then◌else◌, find,
}
use forksan.Store.{coalesce}
use forksan.FileSystem.{FileSystem, join_path}
use forksan.Config.{
  Config, TomlValue, RawConfig, Toml, toml_duration, assign, load_layer, apply_home, load_config,
  load_config_at, config_file,
}

abbrev valid : Option TomlValue → Option ℕ
valid none = none
valid (some v) = toml_duration v

-- What a layer sets, if it was read.
abbrev pub secs : (RawConfig → Option TomlValue) → Option RawConfig → Option ℕ
secs key none = none
secs key (some raw) = valid (key raw)

abbrev pub listed : (RawConfig → Option (List Text)) → Option RawConfig → Option (List Text)
listed key none = none
listed key (some raw) = key raw

abbrev here : Text → Text → TomlValue → Option ℕ
here tag key v = if key == tag then toml_duration v else none

abbrev last_valid : Text → List (Text × TomlValue) → Option ℕ
last_valid tag [] = none
last_valid tag ((key, v) ∷ raw) = coalesce (last_valid tag raw) (here tag key v)

abbrev pub throttle_in : Text → Option RawConfig → Option ℕ
throttle_in tag none = none
throttle_in tag (some raw) = last_valid tag raw.tag_throttles

abbrev pub throttle_for : Text → List (Text × ℕ) → Option ℕ
throttle_for tag throttles = elim (find (λ p. p.0 == tag) throttles) [
  | none ↦ none
  | some (key, secs) ↦ some secs
]

-- The configuration holds the project's value of each key, else the user's, else the one before; the
-- quiet period is the user's alone.
pub record IsLayered (old : Config) (project user : Option RawConfig) (cfg : Config) : Type 0 where
  pub idle :
      cfg.default_idle_deadline_secs
      ≡ assign
          (secs RawConfig.default_idle_deadline project)
          (assign (secs RawConfig.default_idle_deadline user) old.default_idle_deadline_secs)
  pub timeout :
      cfg.session_timeout_secs
      ≡ assign
          (secs RawConfig.session_timeout project)
          (assign (secs RawConfig.session_timeout user) old.session_timeout_secs)
  pub quiet :
      cfg.quiet_period_secs ≡ assign (secs RawConfig.quiet_period user) old.quiet_period_secs
  pub debounce :
      cfg.wake_debounce_secs
      ≡ assign
          (secs RawConfig.wake_debounce project)
          (assign (secs RawConfig.wake_debounce user) old.wake_debounce_secs)
  pub enabled :
      cfg.enable_tags
      ≡ coalesce
          (listed RawConfig.enable_tags project)
          (coalesce (listed RawConfig.enable_tags user) old.enable_tags)
  pub disabled :
      cfg.disable_tags
      ≡ coalesce
          (listed RawConfig.disable_tags project)
          (coalesce (listed RawConfig.disable_tags user) old.disable_tags)
  pub throttled :
      (tag : Text)
      → throttle_for tag cfg.tag_throttles
        ≡ coalesce
            (throttle_in tag project)
            (coalesce (throttle_in tag user) (throttle_for tag old.tag_throttles))

-- The file of the project's layer, if there is a project and the file is not the user's own.
abbrev pub project_file : Option Text → Text → Option Text
project_file none user_config = none
project_file (some root) user_config =
    if user_config == join_path root config_file then none else some (join_path root config_file)

abbrev pub layer_at : FileSystem → Toml → Option Text → Option RawConfig
layer_at fs toml none = none
layer_at fs toml (some path) = (load_layer fs toml path).0

-- The command line and the daemon agree: with the home directory, the configuration and its warnings
-- are those that the daemon loads with the file below that directory.
pub load_config-load_config_at :
    (fs : FileSystem) (toml : Toml) (project_root : Option Text) (home : Text)
    → load_config fs toml project_root (some home)
      ≡ load_config_at fs toml project_root (join_path home config_file)
unfolding load_config load_config_at apply_home
load_config-load_config_at fs toml project_root home = refl
