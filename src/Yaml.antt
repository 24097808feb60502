-- ===== src/Yaml.antt =====
-- The `serde_yaml::Value` that the code matches on: its shape, without the library's parser.
use forksan.Prelude.{ℕ, Text, Bool, Option, none, some, ◌==◌, text_eq, if◌then◌else◌}

mutual
  pub data Value : Type 0 where
    null : Value
    boolean : Bool → Value
    -- what `as_u64` returns
    number : Option ℕ → Value
    string : Text → Value
    sequence : Values → Value
    mapping : Entries → Value
    tagged : Value → Value

  pub data Values : Type 0 where
    nil : Values
    cons : Value → Values → Values

  pub data Entries : Type 0 where
    end : Entries
    entry : Value → Value → Entries → Entries

-- `m.get(k)` at a string key
unfoldable pub get_key : Text → Entries → Option Value
get_key k end = none
get_key k (entry (string s) v m) = let rest = get_key k m in if s == k then some v else rest
get_key k (entry j v m) = get_key k m

-- `v.as_str()`, which looks through tags
abbrev pub as_str : Value → Option Text
as_str (string s) = some s
as_str (tagged v) = as_str v
as_str v = none
