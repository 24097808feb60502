-- ===== src/Duration/Tests.antt =====
-- The durations of the source's tests, and the theorems of `Units` at concrete texts.
use forksan.Prelude.{
  true, ℕ, ◌<◌, ◌*◌, ◌≡◌, refl, some, none, codes, trim, parse_u64, is_digit, wrapping_mul, arith,
  to_string,
}
use forksan.Duration.{parse_duration_str, parse_duration_yaml}
use forksan.Duration.Units.{parse_duration_str-overflow, days}
use forksan.Yaml.{Value}

hours_text : parse_duration_str (codes "2h") ≡ some 7200
unfolding parse_duration_str trim parse_u64 wrapping_mul is_digit
hours_text = refl

padded_text : parse_duration_str (codes " 10m ") ≡ some 600
unfolding parse_duration_str trim parse_u64 wrapping_mul is_digit
padded_text = refl

weeks_text : parse_duration_str (codes "10w") ≡ none
unfolding parse_duration_str trim parse_u64 wrapping_mul is_digit
weeks_text = refl

boolean_value : parse_duration_yaml (Value.boolean true) ≡ none
unfolding parse_duration_yaml
boolean_value = refl

parse_duration_str-overflow_example :
    (d : ℕ) × (parse_duration_str (codes "213503982334602d") ≡ some d)
    × (d < 213503982334602 * 86400)
unfolding to_string
parse_duration_str-overflow_example =
    parse_duration_str-overflow 213503982334602 days (omega arith) (omega arith)
