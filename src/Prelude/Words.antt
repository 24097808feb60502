-- ===== src/Prelude/Words.antt =====
-- Machine words: a `u64` is a number below 2 ^ 64, and an `i64` is the word of its two's complement.
-- Arithmetic wraps, as it does in a release build.
use Prim.Native.Nat.{ℕ, ◌+◌, ◌-◌, ◌*◌, ◌%◌, ◌<◌, ◌≤◌, min}
use mathlib.Core.Path.{◌≡◌}
use mathlib.Core.Bool.{Bool, false}
use native.Mathlib.Omega.{arith}
use forksan.Prelude.Tests.{leb, ltb}

abbrev pub word : ℕ
word = 18446744073709551616

abbrev pub half_word : ℕ
half_word = 9223372036854775808

-- The largest `u64`.
abbrev pub max_u64 : ℕ
max_u64 = 18446744073709551615

-- `a * b` and `a + b` on words
unfoldable pub wrapping_mul : ℕ → ℕ → ℕ
wrapping_mul a b = (a * b) % word

unfoldable pub wrapping_add : ℕ → ℕ → ℕ
wrapping_add a b = (a + b) % word

-- `a - b` on words
unfoldable pub wrapping_sub : ℕ → ℕ → ℕ
wrapping_sub a b = (a + word - b) % word

unfoldable pub saturating_mul : ℕ → ℕ → ℕ
saturating_mul a b = min (a * b) max_u64

-- `<=` and `<` on the words of signed numbers: the top bit is flipped.
unfoldable pub leb_i64 : ℕ → ℕ → Bool
leb_i64 a b = leb ((a + half_word) % word) ((b + half_word) % word)

unfoldable pub ltb_i64 : ℕ → ℕ → Bool
ltb_i64 a b = ltb ((a + half_word) % word) ((b + half_word) % word)

-- On numbers that are not negative the signed order is the usual one.
pub ltb_i64-nonneg : (a b : ℕ) → a < half_word → b < half_word → ltb_i64 a b ≡ ltb a b
unfolding ltb_i64
ltb_i64-nonneg a b ha hb = ground arith

-- No number that is not negative is below a word with the top bit set.
pub ltb_i64-neg : (a b : ℕ) → a < half_word → half_word ≤ b → b < word → ltb_i64 a b ≡ false
unfolding ltb_i64
ltb_i64-neg a b ha h hb = ground arith
