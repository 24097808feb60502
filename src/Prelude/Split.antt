-- ===== src/Prelude/Split.antt =====
-- `split` at a character and `join`.
use Prim.Native.Nat.{ℕ}
use mathlib.Core.Path.{◌≡◌, refl}
use mathlib.Core.Logic.{inl, inr}
use mathlib.Core.List.{List, [], ◌∷◌, ◌++◌}
use native.Mathlib.Omega.{arith}
use forksan.Prelude.Tests.{if◌then◌else◌, nat_beq}
use forksan.Prelude.Lists.{In, All}
use forksan.Prelude.Strings.{Text}

-- A character put before the first piece.
abbrev pub push_first : ℕ → List Text → List Text
push_first c [] = (c ∷ []) ∷ []
push_first c (p ∷ ps) = (c ∷ p) ∷ ps

-- `s.split(sep)`: there is always a piece.
unfoldable pub split : ℕ → Text → List Text
split sep [] = [] ∷ []
split sep (c ∷ s) = let rest = split sep s in if nat_beq c sep then [] ∷ rest else push_first c rest

-- `pieces.join(sep)`
unfoldable pub join : Text → List Text → Text
join sep [] = []
join sep (p ∷ []) = p
join sep (p ∷ q ∷ ps) = p ++ (sep ++ join sep (q ∷ ps))

split-append : (sep : ℕ) (p s : Text) → ¬ In sep p → split sep (p ++ (sep ∷ s)) ≡ p ∷ split sep s
unfolding split
split-append sep [] s n = ground arith
split-append sep (c ∷ p) s n =
    ground (arith, split-append sep p s (λ m. n (inr m)), λ (e : sep ≡ c). n (inl e))

split_whole : (sep : ℕ) (p : Text) → ¬ In sep p → split sep p ≡ p ∷ []
unfolding split
split_whole sep [] n = refl
split_whole sep (c ∷ p) n =
    ground (arith, split_whole sep p (λ m. n (inr m)), λ (e : sep ≡ c). n (inl e))

join-cons :
    (sep p q : Text) (ps : List Text) → join sep (p ∷ q ∷ ps) ≡ p ++ (sep ++ join sep (q ∷ ps))
unfolding join
join-cons sep p q ps = refl

join_one : (sep p : Text) → join sep (p ∷ []) ≡ p
unfolding join
join_one sep p = refl

-- Splitting undoes joining when no piece holds the separator.
pub split-join :
    (sep : ℕ) (p : Text) (ps : List Text)
    → All (λ q. ¬ In sep q) (p ∷ ps)
    → split sep (join (sep ∷ []) (p ∷ ps)) ≡ p ∷ ps
split-join sep p [] h = rw (join_one (sep ∷ []) p) (split_whole sep p h.0)
split-join sep p (q ∷ ps) h = rw (
  join-cons (sep ∷ []) p q ps,
  split-append sep p (join (sep ∷ []) (q ∷ ps)) h.0,
  split-join sep q ps h.1,
)
