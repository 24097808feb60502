-- ===== src/Frontmatter.antt =====
-- crates/autofork-core/src/frontmatter.rs: a fork definition and its triggers.
pub mod Labels
pub mod Parse
pub mod File
pub mod Values
pub mod Checked
pub mod Tests
use forksan.Prelude.{
  ℕ, Bool, true, false, List, [], ◌∷◌, ◌++◌, Option, none, some, Text, codes, to_string,
}

-- A moment at which a fork fires. The last five are recognised and never fire.
pub data ForkRunOn : Type 0 where
  idle : Option ℕ → ForkRunOn
  context_tokens : ℕ → ForkRunOn
  context_used_pct : ℕ → ForkRunOn
  context_left : ℕ → ForkRunOn
  compact session_start session_end manual_stop boot : ForkRunOn

pub record ForkDef : Type 0 where
  pub description : Option Text
  pub run_on : List ForkRunOn
  pub throttle_secs : Option ℕ
  pub after : List Text
  pub overlap : Bool
  pub tags : List Text

pub record ParsedFork : Type 0 where
  pub def : ForkDef
  pub body : Text
  pub warnings : List Text

-- The outcome of parsing a definition file.
pub data ForkParse : Type 0 where
  fork : ParsedFork → ForkParse
  not_fork : Bool → ForkParse
  invalid : ForkParse

abbrev pub default_run_on : List ForkRunOn
default_run_on = ForkRunOn.idle none ∷ []

-- The stable label of a trigger, which is also the latch key of a context threshold.
unfoldable pub label : ForkRunOn → Text
label (idle none) = codes "idle"
label (idle (some s)) = codes "idle:" ++ to_string s
label (context_tokens n) = codes "context_tokens:" ++ to_string n
label (context_used_pct p) = codes "context_used:" ++ (to_string p ++ codes "%")
label (context_left n) = codes "context_left:" ++ to_string n
label compact = codes "compact"
label session_start = codes "session_start"
label session_end = codes "session_end"
label manual_stop = codes "manual_stop"
label boot = codes "boot"

unfoldable pub is_supported : ForkRunOn → Bool
is_supported (idle after_secs) = true
is_supported (context_tokens n) = true
is_supported (context_used_pct p) = true
is_supported (context_left n) = true
is_supported _ = false
