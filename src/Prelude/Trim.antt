-- ===== src/Prelude/Trim.antt =====
-- White space around a text, and the characters of a number.
use Prim.Native.Nat.{ℕ, zero, suc, ◌/◌, ◌%◌, ◌+◌}
use mathlib.Core.Path.{◌≡◌, refl, ap, ◌∙◌}
use mathlib.Core.Bool.{true, false}
use mathlib.Core.Logic.{inl, inr}
use mathlib.Core.List.{
  [], ◌∷◌, ◌++◌, reverse, reverse-cons, reverse-append, reverse-reverse, append-nil,
}
use native.Mathlib.Omega.{arith}
use forksan.Prelude.Tests.{Bool-cases, ltb}
use forksan.Prelude.Lists.{All, All-map}
use forksan.Prelude.Strings.{Text, is_whitespace, trim_start, trim_end, trim}
use forksan.Prelude.Number.{decimal, to_string, is_digit}

abbrev pub IsBlank : Text → Type 0
IsBlank = All (λ c. is_whitespace c ≡ true)

abbrev pub IsSolid : Text → Type 0
IsSolid = All (λ c. is_whitespace c ≡ false)

pub All-append : (P : ℕ → Type 0) (xs ys : Text) → All P xs → All P ys → All P (xs ++ ys)
All-append P [] ys hx hy = hy
All-append P (x ∷ xs) ys hx hy = (hx.0, All-append P xs ys hx.1 hy)

pub All-reverse : (P : ℕ → Type 0) (xs : Text) → All P xs → All P (reverse xs)
All-reverse P [] h = tt
All-reverse P (x ∷ xs) h =
    rw (reverse-cons x xs) (All-append P (reverse xs) (x ∷ []) (All-reverse P xs h.1) (h.0, tt))

trim_start-blank : (w s : Text) → IsBlank w → trim_start (w ++ s) ≡ trim_start s
unfolding trim_start
trim_start-blank [] s h = refl
trim_start-blank (c ∷ w) s h = rw (h.0) (trim_start-blank w s h.1)

trim_start-solid : (s : Text) → IsSolid s → trim_start s ≡ s
unfolding trim_start
trim_start-solid [] h = refl
trim_start-solid (c ∷ s) h = rw (h.0) refl

-- Only what follows a solid text is trimmed away.
trim_end-solid : (s b : Text) → IsSolid s → IsBlank b → trim_end (s ++ b) ≡ s
unfolding trim_end
trim_end-solid s b hs hb = rw (
  reverse-append s b,
  trim_start-blank (reverse b) (reverse s) (All-reverse _ b hb),
  trim_start-solid (reverse s) (All-reverse _ s hs),
  reverse-reverse s,
)

trim_start-solid_append : (c : ℕ) (s : Text) → is_whitespace c ≡ false → trim_start (c ∷ s) ≡ c ∷ s
unfolding trim_start
trim_start-solid_append c s h = rw h

trim_start-all_blank : (b : Text) → IsBlank b → trim_start b ≡ []
unfolding trim_start
trim_start-all_blank [] h = refl
trim_start-all_blank (c ∷ b) h = rw (h.0) (trim_start-all_blank b h.1)

-- A text with no white space inside is what is left of it with any white space around it.
pub trim-padded : (a s b : Text) → IsBlank a → IsSolid s → IsBlank b → trim (a ++ (s ++ b)) ≡ s
unfolding trim
trim-padded a [] b ha hs hb =
    rw (trim_start-blank a b ha, trim_start-all_blank b hb) (trim_end-solid [] [] tt tt)
trim-padded a (c ∷ s) b ha hs hb =
    rw (trim_start-blank a (c ∷ (s ++ b)) ha, trim_start-solid_append c (s ++ b) hs.0)
      (trim_end-solid (c ∷ s) b hs hb)

pub trim-solid : (s : Text) → IsSolid s → trim s ≡ s
trim-solid s h = ap trim (append-nil-sym s) ∙ trim-padded [] s [] tt h tt
  where
    append-nil-sym : (t : Text) → t ≡ t ++ []
    append-nil-sym t = rw append-nil

abbrev pub IsNumeric : Text → Type 0
IsNumeric = All (λ c. is_digit c ≡ true)

decimal-IsNumeric : (f n : ℕ) → IsNumeric (decimal f n)
unfolding decimal
decimal-IsNumeric zero n = tt
decimal-IsNumeric (suc f) n = elim (Bool-cases (ltb n 10)) [
  | inl e ↦ rw e (unfold is_digit in ground arith, tt)
  | inr e ↦
      rw e (All-append _ (decimal f (n / 10)) _ (decimal-IsNumeric f (n / 10)) (digit_at n, tt))
]
  where
    digit_at : (m : ℕ) → is_digit (m % 10 + 48) ≡ true
    digit_at m = unfold is_digit in ground arith

pub to_string-IsNumeric : (n : ℕ) → IsNumeric (to_string n)
unfolding to_string
to_string-IsNumeric n = decimal-IsNumeric 20 n

digit-solid : (c : ℕ) → is_digit c ≡ true → is_whitespace c ≡ false
unfolding is_digit is_whitespace
digit-solid c h = ground arith

pub IsNumeric-IsSolid : (s : Text) → IsNumeric s → IsSolid s
IsNumeric-IsSolid s h = All-map _ _ s digit-solid h
