-- ===== src/Duration/Units.antt =====
-- What duration texts mean: a number, an optional unit, and white space around them.
use mathlib.Core.List.{reverse, reverse-append, reverse-reverse}
use forksan.Prelude.{
  ℕ, ◌*◌, ◌%◌, ◌<◌, ◌≤◌, ◌≡◌, refl, none, some, [], ◌∷◌, ◌++◌, Text, trim, All-append, All-reverse,
  is_digit, is_whitespace, to_string, word, arith, true, parse_u64-to_string, wrapping_mul,
  append-nil, parse_u64, trim-padded, trim-solid, IsBlank, IsSolid, IsNumeric, IsNumeric-IsSolid,
  to_string-IsNumeric, nat_eq,
}
use forksan.Duration.{parse_duration_str, by_suffix, scaled}

pub data TimeUnit : Type 0 where
  bare seconds minutes hours days : TimeUnit

abbrev pub suffix : TimeUnit → Text
suffix bare = []
suffix seconds = b's' ∷ []
suffix minutes = b'm' ∷ []
suffix hours = b'h' ∷ []
suffix days = b'd' ∷ []

abbrev pub seconds_in : TimeUnit → ℕ
seconds_in bare = 1
seconds_in seconds = 1
seconds_in minutes = 60
seconds_in hours = 3600
seconds_in days = 86400

scaled-to_string : (n mult : ℕ) → n < word → scaled (to_string n) mult ≡ some ((n * mult) % word)
unfolding scaled wrapping_mul
scaled-to_string n mult h = rw (
  trim-solid (to_string n) (IsNumeric-IsSolid _ (to_string-IsNumeric n)),
  parse_u64-to_string n h,
)

-- A last character that is a digit belongs to the number.
by_suffix-IsNumeric :
    (c : ℕ) (r : Text) → is_digit c ≡ true → by_suffix (c ∷ r) ≡ scaled (reverse (c ∷ r)) 1
unfolding by_suffix is_digit
by_suffix-IsNumeric c r h = ground arith

scaled-empty : scaled [] 1 ≡ none
unfolding scaled trim parse_u64
scaled-empty = refl

by_suffix-bare : (r : Text) → IsNumeric r → by_suffix r ≡ scaled (reverse r) 1
by_suffix-bare [] h = unfold by_suffix in rw scaled-empty
by_suffix-bare (c ∷ r) h = by_suffix-IsNumeric c r h.0

by_suffix-unit :
    (u : TimeUnit) (s : Text)
    → IsNumeric s
    → by_suffix (reverse (s ++ suffix u)) ≡ scaled s (seconds_in u)
by_suffix-unit bare s h =
    rw (append-nil s, by_suffix-bare (reverse s) (All-reverse _ s h), reverse-reverse s)
by_suffix-unit seconds s h =
    rw (reverse-append s (b's' ∷ [])) (unfold by_suffix in rw (reverse-reverse s))
by_suffix-unit minutes s h =
    rw (reverse-append s (b'm' ∷ [])) (unfold by_suffix in rw (reverse-reverse s))
by_suffix-unit hours s h =
    rw (reverse-append s (b'h' ∷ [])) (unfold by_suffix in rw (reverse-reverse s))
by_suffix-unit days s h =
    rw (reverse-append s (b'd' ∷ [])) (unfold by_suffix in rw (reverse-reverse s))

suffix-IsSolid : (u : TimeUnit) → IsSolid (suffix u)
unfolding is_whitespace
suffix-IsSolid bare = tt
suffix-IsSolid seconds = (refl, tt)
suffix-IsSolid minutes = (refl, tt)
suffix-IsSolid hours = (refl, tt)
suffix-IsSolid days = (refl, tt)

-- A number that fits a u64 and a unit, with any white space around them, read as that many seconds
-- modulo 2 ^ 64, so exactly while the seconds fit a u64.
pub parse_duration_str-units :
    (a b : Text) (n : ℕ) (u : TimeUnit)
    → IsBlank a
    → IsBlank b
    → n < word
    → parse_duration_str (a ++ ((to_string n ++ suffix u) ++ b)) ≡ some ((n * seconds_in u) % word)
unfolding parse_duration_str
parse_duration_str-units a b n u ha hb h =
    let digits = to_string-IsNumeric n in
    rw (
      trim-padded a (to_string n ++ suffix u) b ha
          (All-append _ (to_string n) (suffix u) (IsNumeric-IsSolid _ digits) (suffix-IsSolid u))
          hb,
      by_suffix-unit u (to_string n) digits,
      scaled-to_string n (seconds_in u) h,
    )

-- A number that fits a u64 with a unit in which its seconds do not is accepted with a smaller value.
pub parse_duration_str-overflow :
    (n : ℕ) (u : TimeUnit)
    → n < word
    → word ≤ n * seconds_in u
    → (d : ℕ) × (parse_duration_str (to_string n ++ suffix u) ≡ some d) × (d < n * seconds_in u)
parse_duration_str-overflow n u h over = (
  (n * seconds_in u) % word,
  rw (← append-nil (to_string n ++ suffix u)) (parse_duration_str-units [] [] n u tt tt h),
  omega arith,
)
