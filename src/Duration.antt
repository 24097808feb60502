-- ===== src/Duration.antt =====
-- crates/autofork-core/src/duration.rs: durations in frontmatter and configuration.
pub mod Units
pub mod Tests
use mathlib.Core.List.{reverse}
use mathlib.Core.Option
use forksan.Prelude.{
  ℕ, Option, none, some, [], ◌∷◌, Text, trim, parse_u64, is_digit, wrapping_mul, ◌==◌, nat_eq,
  if◌then◌else◌,
}
use forksan.Yaml.{Value, number, string}

-- `num.trim().parse::<u64>().ok().map(|n| n * mult)`
scaled : Text → ℕ → Option ℕ
scaled num mult = Option.map (λ n. wrapping_mul n mult) (parse_u64 (trim num))

-- The match on the last character; the text comes reversed.
by_suffix : Text → Option ℕ
unfolding scaled
by_suffix [] = none
by_suffix (c ∷ r) =
    if c == b's'
    then scaled (reverse r) 1
    else if c == b'm'
    then scaled (reverse r) 60
    else if c == b'h'
    then scaled (reverse r) 3600
    else if c == b'd'
    then scaled (reverse r) 86400
    else if is_digit c
    then scaled (reverse (c ∷ r)) 1
    else none

unfoldable pub parse_duration_str : Text → Option ℕ
unfolding by_suffix
parse_duration_str s = by_suffix (reverse (trim s))

unfoldable pub parse_duration_yaml : Value → Option ℕ
parse_duration_yaml (number as_u64) = as_u64
parse_duration_yaml (string s) = parse_duration_str s
parse_duration_yaml v = none
