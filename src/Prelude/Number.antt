-- ===== src/Prelude/Number.antt =====
-- Decimal text of a `u64`: `to_string` and `parse::<u64>`.
use Prim.Native.Nat.{ℕ, zero, suc, ◌+◌, ◌-◌, ◌*◌, ◌/◌, ◌%◌, ◌<◌, ◌≤◌}
use mathlib.Core.Path.{◌≡◌, refl, ap, ◌∙◌}
use mathlib.Core.List.{[], ◌∷◌, ◌++◌}
use mathlib.Core.Option.{Option, none, some}
use mathlib.Core.Bool.{Bool, false, ◌&&◌}
use mathlib.Core.Logic.{inl, inr}
use native.Mathlib.Omega.{arith}
use forksan.Prelude.Tests.{if◌then◌else◌, ltb, leb, nat_beq, Bool-cases}
use forksan.Prelude.Strings.{Text}
use forksan.Prelude.Words.{word}

unfoldable pub decimal : ℕ → ℕ → Text
decimal zero n = []
decimal (suc f) n =
    let more = decimal f (n / 10) ++ ((n % 10 + 48) ∷ []) in
    if ltb n 10 then (n + 48) ∷ [] else more

-- A `u64` has at most 20 digits.
unfoldable pub to_string : ℕ → Text
unfolding decimal
to_string n = decimal 20 n

unfoldable pub is_digit : ℕ → Bool
is_digit c = leb 48 c && leb c 57

unfoldable pub parse_digits : ℕ → Text → Option ℕ
unfolding is_digit
parse_digits acc [] = some acc
parse_digits acc (c ∷ s) =
    let rest = parse_digits (acc * 10 + (c - 48)) s in if is_digit c then rest else none

abbrev in_range : Option ℕ → Option ℕ
in_range none = none
in_range (some n) = if ltb n word then some n else none

parse_unsigned : Text → Option ℕ
unfolding parse_digits
parse_unsigned [] = none
parse_unsigned (c ∷ s) = in_range (parse_digits 0 (c ∷ s))

-- `parse::<u64>().ok()`: a leading `+` is allowed, and the value has to fit.
unfoldable pub parse_u64 : Text → Option ℕ
unfolding parse_unsigned
parse_u64 [] = none
parse_u64 (c ∷ s) = if nat_beq c b'+' then parse_unsigned s else parse_unsigned (c ∷ s)

abbrev ten_pow : ℕ → ℕ
ten_pow zero = 1
ten_pow (suc f) = 10 * ten_pow f

abbrev push_digit : Option ℕ → ℕ → Option ℕ
push_digit none d = none
push_digit (some n) d = some (n * 10 + d)

parse_digits-append :
    (acc d : ℕ) (s : Text)
    → d < 10
    → parse_digits acc (s ++ ((d + 48) ∷ [])) ≡ push_digit (parse_digits acc s) d
unfolding parse_digits
parse_digits-append acc d [] h = ground arith
parse_digits-append acc d (c ∷ s) h =
    ground (arith, parse_digits-append (acc * 10 + (c - 48)) d s h)

decimal-long :
    (f n : ℕ) → ltb n 10 ≡ false → decimal (suc f) n ≡ decimal f (n / 10) ++ ((n % 10 + 48) ∷ [])
unfolding decimal
decimal-long f n e = rw e

parse_digits-short : (f n : ℕ) → n < 10 → parse_digits 0 (decimal (suc f) n) ≡ some n
unfolding decimal parse_digits
parse_digits-short f n h = ground arith

push_back : (n : ℕ) → push_digit (some (n / 10)) (n % 10) ≡ some n
push_back n = ground arith

parse_digits-decimal : (f n : ℕ) → n < ten_pow (suc f) → parse_digits 0 (decimal (suc f) n) ≡ some n
parse_digits-decimal zero n h = parse_digits-short zero n (omega arith)
parse_digits-decimal (suc f) n h = elim (Bool-cases (ltb n 10)) [
  | inl small ↦ parse_digits-short (suc f) n (ground arith)
  | inr big ↦
      rw
        (
          decimal-long (suc f) n big,
          parse_digits-append 0 (n % 10) (decimal (suc f) (n / 10)) (omega arith),
          parse_digits-decimal f (n / 10) (omega arith),
        )
        (push_back n)
]

-- The first character is a digit.
decimal-head : (f n : ℕ) → (c : ℕ) × (s : Text) × (decimal (suc f) n ≡ c ∷ s) × (48 ≤ c)
unfolding decimal
decimal-head zero n = elim (Bool-cases (ltb n 10)) [
  | inl e ↦ rw e (n + 48, [], refl, omega arith)
  | inr e ↦ rw e (n % 10 + 48, [], refl, omega arith)
]
decimal-head (suc f) n = elim (Bool-cases (ltb n 10)) [
  | inl e ↦ rw e (n + 48, [], refl, omega arith)
  | inr e ↦
      let (c, s, q, h) = decimal-head f (n / 10) in
      rw e (c, s ++ ((n % 10 + 48) ∷ []), ap (λ t. t ++ ((n % 10 + 48) ∷ [])) q, h)
]

parse_u64-start :
    (c : ℕ) (s : Text) → 48 ≤ c → parse_u64 (c ∷ s) ≡ in_range (parse_digits 0 (c ∷ s))
unfolding parse_u64
parse_u64-start c s h = ground arith

-- Reading back what `to_string` writes.
pub parse_u64-to_string : (n : ℕ) → n < word → parse_u64 (to_string n) ≡ some n
parse_u64-to_string n h =
    let (c, s, q, digit) = decimal-head 19 n in
    unfold to_string in
    rw q
      (parse_u64-start c s digit ∙ rw (← q, parse_digits-decimal 19 n (omega arith)) (ground arith))

pub to_string-injective : (m n : ℕ) → m < word → n < word → to_string m ≡ to_string n → m ≡ n
to_string-injective m n hm hn e = cc (parse_u64-to_string m hm, parse_u64-to_string n hn)
