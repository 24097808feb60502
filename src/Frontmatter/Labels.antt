-- ===== src/Frontmatter/Labels.antt =====
-- Labels tell the triggers that can fire apart.
use forksan.Prelude.{
  ℕ, ◌<◌, ◌≡◌, refl, ap, true, [], ◌∷◌, ◌++◌, none, some, Text, to_string-injective, word, arith,
}
use forksan.Frontmatter.{
  ForkRunOn, idle, context_tokens, context_used_pct, context_left, label, is_supported,
}

-- The number of a trigger fits a `u64`.
abbrev pub FitsWord : ForkRunOn → Type 0
FitsWord (idle (some s)) = s < word
FitsWord (context_tokens n) = n < word
FitsWord (context_used_pct p) = p < word
FitsWord (context_left n) = n < word
FitsWord t = Unit

snoc-injective : (s t : Text) (c : ℕ) → s ++ (c ∷ []) ≡ t ++ (c ∷ []) → s ≡ t
snoc-injective [] [] c e = refl
snoc-injective [] (d ∷ []) c e = cc
snoc-injective [] (d ∷ d' ∷ t) c e = cc
snoc-injective (d ∷ []) [] c e = cc
snoc-injective (d ∷ d' ∷ s) [] c e = cc
snoc-injective (d ∷ s) (d' ∷ t) c e = ground (arith, snoc-injective s t c)

-- Two supported triggers whose numbers fit a u64 have the same label only if they are the same.
pub label-injective :
    (t u : ForkRunOn)
    → is_supported t ≡ true
    → is_supported u ≡ true
    → FitsWord t
    → FitsWord u
    → label t ≡ label u
    → t ≡ u
unfolding label is_supported
label-injective (idle none) (idle none) st su ht hu e = refl
label-injective (idle (some a)) (idle (some b)) st su ht hu e =
    ap (λ n. idle (some n)) (to_string-injective a b ht hu (ground arith))
label-injective (context_tokens a) (context_tokens b) st su ht hu e =
    ap context_tokens (to_string-injective a b ht hu (ground arith))
label-injective (context_used_pct a) (context_used_pct b) st su ht hu e =
    ap context_used_pct (to_string-injective a b ht hu (snoc-injective _ _ b'%' (ground arith)))
label-injective (context_left a) (context_left b) st su ht hu e =
    ap context_left (to_string-injective a b ht hu (ground arith))
label-injective _ _ st su ht hu e = ground arith
