-- ===== src/Prelude/Find.antt =====
-- Searching a text for a pattern that ends in a code point that nothing before it has.
use Prim.Native.Nat.{ℕ, suc, ◌<◌}
use mathlib.Core.Path.{◌≡◌, refl, subst}
use mathlib.Core.List.{[], ◌∷◌, ◌++◌, append_assoc}
use mathlib.Core.Option.{none, some}
use mathlib.Core.Bool.{Bool, false, ◌||◌}
use native.Mathlib.Omega.{arith}
use forksan.Prelude.Tests.{nat_beq}
use forksan.Prelude.Lists.{length}
use forksan.Prelude.Strings.{Text, strip_prefix, find_text}

-- The code point occurs in the text.
unfoldable pub has : ℕ → Text → Bool
has c [] = false
has c (d ∷ s) = nat_beq d c || has c s

pub has-append : (c : ℕ) (s t : Text) → has c (s ++ t) ≡ (has c s || has c t)
unfolding has
has-append c [] t = refl
has-append c (d ∷ s) t = ground (arith, has-append c s t)

strip_prefix-longer :
    (c : ℕ) (p s r : Text)
    → has c s ≡ false
    → length p < length s
    → strip_prefix (p ++ (c ∷ [])) (s ++ (c ∷ r)) ≡ none
unfolding strip_prefix has
strip_prefix-longer c [] [] r h l = ground arith
strip_prefix-longer c [] (d ∷ s) r h l = ground arith
strip_prefix-longer c (b ∷ p) [] r h l = ground arith
strip_prefix-longer c (b ∷ p) (d ∷ s) r h l = ground (arith, strip_prefix-longer c p s r)

length-append_longer : (a p : Text) → length p < suc (length (a ++ p))
length-append_longer [] p = omega arith
length-append_longer (x ∷ a) p = ground (arith, length-append_longer a p)

strip_prefix-here : (c : ℕ) (p r : Text) → strip_prefix (p ++ (c ∷ [])) (p ++ (c ∷ r)) ≡ some r
unfolding strip_prefix
strip_prefix-here c [] r = ground arith
strip_prefix-here c (b ∷ p) r = ground (arith, strip_prefix-here c p r)

find_text-here : (p t r : Text) → strip_prefix p t ≡ some r → find_text p t ≡ some ([], r)
unfolding find_text
find_text-here p [] r e = rw e
find_text-here p (d ∷ t) r e = rw e

find_text-later :
    (p t a r : Text) (x : ℕ)
    → strip_prefix p (x ∷ t) ≡ none
    → find_text p t ≡ some (a, r)
    → find_text p (x ∷ t) ≡ some (x ∷ a, r)
unfolding find_text
find_text-later p t a r x e q = rw (e, q) refl

pub find_text-first :
    (c : ℕ) (a p r : Text)
    → has c a ≡ false
    → has c p ≡ false
    → find_text (p ++ (c ∷ [])) (a ++ (p ++ (c ∷ r))) ≡ some (a, r)
find_text-first c [] p r ha hp =
    find_text-here (p ++ (c ∷ [])) (p ++ (c ∷ r)) r (strip_prefix-here c p r)
find_text-first c (x ∷ a) p r ha hp =
    find_text-later (p ++ (c ∷ [])) (a ++ (p ++ (c ∷ r))) a r x
      (subst (λ t. strip_prefix (p ++ (c ∷ [])) (x ∷ t) ≡ none) (append_assoc a p (c ∷ r))
        (strip_prefix-longer c p (x ∷ (a ++ p)) r (free ha hp) (length-append_longer a p)))
      (find_text-first c a p r (tail_free ha) hp)
  where
    tail_free : has c (x ∷ a) ≡ false → has c a ≡ false
    tail_free h = unfold has in ground arith

    free : has c (x ∷ a) ≡ false → has c p ≡ false → has c (x ∷ (a ++ p)) ≡ false
    free h k = unfold has in ground (arith, has-append c a p)
