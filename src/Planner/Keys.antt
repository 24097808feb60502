-- ===== src/Planner/Keys.antt =====
-- Which triggers share a latch (crates/autofork-daemon/src/planner.rs, `latch_key_for`).
use forksan.Prelude.{
  subst, ℕ, ◌<◌, ◌≡◌, ◌↔◌, ◌⊎◌, ◌≢◌, subst, refl, ap, sym, true, [], ◌∷◌, ◌++◌, Option, none, some,
  Text, codes, to_string, to_string-injective, word, arith, inl, inr,
}
use forksan.Frontmatter.{
  ForkRunOn, idle, context_tokens, context_used_pct, context_left, label, is_supported,
}
use forksan.Frontmatter.Labels.{FitsWord, label-injective}
use forksan.Planner.{latch_key_for}

-- The label of an idle trigger.
abbrev pub IsIdle : Text → Type 0
IsIdle text = (after_secs : Option ℕ) × (text ≡ label (idle after_secs))

abbrev pub pause_key : ℕ → Text
pause_key pause_epoch = codes "idle-pause:" ++ to_string pause_epoch

first_code : Text → ℕ
first_code [] = 0
first_code (c ∷ text) = c

-- The first letters tell an idle label from a threshold's.
not-IsIdle : (text : Text) → first_code text ≡ b'c' → ¬ IsIdle text
unfolding first_code label
not-IsIdle text h (none, e) = ground (arith, ap first_code e, h)
not-IsIdle text h (some s, e) = ground (arith, ap first_code e, h)

not_pause : (text : Text) (q : ℕ) → first_code text ≡ b'c' → text ≢ pause_key q
unfolding first_code
not_pause text q h e = ground (arith, ap first_code e, h)

-- An idle trigger has the key of the pause, whatever its deadline; a threshold its label.
pub latch_key_for-cases :
    (t : ForkRunOn)
    → is_supported t ≡ true
    → (IsIdle (label t) × ((p : ℕ) → latch_key_for t p ≡ some (pause_key p)))
      ⊎ (¬ IsIdle (label t)
          × ((p : ℕ) → latch_key_for t p ≡ some (label t))
          × ((q : ℕ) → label t ≢ pause_key q))
unfolding latch_key_for is_supported first_code label
latch_key_for-cases (idle after_secs) h = inl ((after_secs, refl), λ p. refl)
latch_key_for-cases (context_tokens n) h =
    inr (not-IsIdle _ refl, λ p. refl, λ q. not_pause _ q refl)
latch_key_for-cases (context_used_pct n) h =
    inr (not-IsIdle _ refl, λ p. refl, λ q. not_pause _ q refl)
latch_key_for-cases (context_left n) h = inr (not-IsIdle _ refl, λ p. refl, λ q. not_pause _ q refl)
latch_key_for-cases _ h = cc

-- Supported triggers whose numbers fit a u64 have the same latch exactly when both are idle triggers, of
-- whatever deadlines, in the same pause, or they are the same context threshold, in whatever pauses.
pub latch_key_for_iff :
    (t u : ForkRunOn) (p q : ℕ)
    → is_supported t ≡ true
    → is_supported u ≡ true
    → FitsWord t
    → FitsWord u
    → p < word
    → q < word
    → latch_key_for t p ≡ latch_key_for u q
      ↔ ((IsIdle (label t) × IsIdle (label u) × (p ≡ q)) ⊎ (¬ IsIdle (label t) × (t ≡ u)))
latch_key_for_iff t u p q st su ht hu hp hq = elim (latch_key_for-cases t st) [
  | inl (it, kt) ↦ elim (latch_key_for-cases u su) [
    | inl (iu, ku) ↦
        rw (kt p, ku q)
          (
            λ e. inl (it, iu, to_string-injective p q hp hq (rest e)),
            λ h. elim h [
              | inl (i, j, e) ↦ ap (λ n. some (pause_key n)) e
              | inr (n, e) ↦ absurd (n it)
            ],
          )
    | inr (nu, ku, xu) ↦
        rw (kt p, ku q)
          (
            λ e. absurd (xu p (sym (inner e))),
            λ h. elim h [ inl (i, j, e) ↦ absurd (nu j) | inr (n, e) ↦ absurd (n it) ],
          )
  ]
  | inr (nt, kt, xt) ↦ elim (latch_key_for-cases u su) [
    | inl (iu, ku) ↦
        rw (kt p, ku q)
          (
            λ e. absurd (xt q (inner e)),
            λ h. elim h [
              | inl (i, j, e) ↦ absurd (nt i)
              | inr (n, e) ↦ absurd (nt (subst (λ x. IsIdle (label x)) (sym e) iu))
            ],
          )
    | inr (nu, ku, xu) ↦
        rw (kt p, ku q)
          (
            λ e. inr (nt, label-injective t u st su ht hu (inner e)),
            λ h. elim h [ inl (i, j, e) ↦ absurd (nt i) | inr (n, e) ↦ ap (λ x. some (label x)) e ],
          )
  ]
]
  where
    inner : {a b : Text} → some a ≡ some b → a ≡ b
    inner e = ground arith

    rest : some (pause_key p) ≡ some (pause_key q) → to_string p ≡ to_string q
    rest e = ground arith
