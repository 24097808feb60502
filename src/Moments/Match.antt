-- ===== src/Moments/Match.antt =====
-- `match_moments` finds a trigger exactly when some moment hits some trigger of the fork.
use forksan.Prelude.{
  ℕ, ◌≡◌, refl, ap, ◌≢◌, ◌↔◌, inl, inr, true, List, [], ◌∷◌, none, some, In, find, find-some,
  find-none, arith, Option-cases,
}
use forksan.Frontmatter.{ForkDef, ForkRunOn, is_supported}
use forksan.Moments.{ForkMoment, hits, or_else, match_moments}

-- Some moment of the list is one at which the trigger fires.
abbrev pub IsHit : ℕ → List ForkMoment → ForkRunOn → Type 0
IsHit d moments t = (m : ForkMoment) × In m moments × (hits d m t ≡ true)

-- What is matched is a trigger of the fork that one of the moments hits.
pub match_moments_sound :
    (fork : ForkDef) (moments : List ForkMoment) (d : ℕ) (t : ForkRunOn)
    → match_moments fork moments d ≡ some t
    → In t fork.run_on × IsHit d moments t
unfolding match_moments
match_moments_sound fork [] d t e = cc
match_moments_sound fork (m ∷ ms) d t e = elim (Option-cases (find (hits d m) fork.run_on)) [
  | inl miss ↦
      let (i, (n, j, h)) = match_moments_sound fork ms d t (ground arith) in (i, (n, inr j, h))
  | inr (u, found) ↦
      let r = find-some (hits d m) fork.run_on t (ground arith) in (r.0, (m, inl refl, r.1))
]

-- And nothing is missed.
pub match_moments-none :
    (fork : ForkDef) (moments : List ForkMoment) (d : ℕ)
    → match_moments fork moments d ≡ none
    → (t : ForkRunOn) → In t fork.run_on
    → ¬ IsHit d moments t
unfolding match_moments
match_moments-none fork [] d e t i (m, j, h) = absurd j
match_moments-none fork (m ∷ ms) d e t i (n, inl p, h) =
    cc (find-none (hits d m) fork.run_on (first e) t i, ap (λ x. hits d x t) p)
  where
    first :
        or_else (find (hits d m) fork.run_on) (match_moments fork ms d) ≡ none
        → find (hits d m) fork.run_on ≡ none
    first q = ground arith
match_moments-none fork (m ∷ ms) d e t i (n, inr j, h) =
    match_moments-none fork ms d (ground (arith, Option-cases (find (hits d m) fork.run_on))) t i
      (n, j, h)

pub hits-is_supported :
    (d : ℕ) (m : ForkMoment) (t : ForkRunOn) → hits d m t ≡ true → is_supported t ≡ true
unfolding hits is_supported
hits-is_supported d m t h = ground arith

-- A fork fires exactly when one of its supported triggers is hit: a trigger that v0.5 no longer
-- supports never makes it fire.
pub match_moments_iff :
    (fork : ForkDef) (moments : List ForkMoment) (d : ℕ)
    → (match_moments fork moments d ≢ none)
      ↔ ((t : ForkRunOn) × In t fork.run_on × (is_supported t ≡ true) × IsHit d moments t)
match_moments_iff fork moments d = (
  λ h. elim (Option-cases (match_moments fork moments d)) [
    | inl e ↦ absurd (h e)
    | inr (t, e) ↦
        let (i, (m, j, k)) = match_moments_sound fork moments d t e in
        (t, i, hits-is_supported d m t k, (m, j, k))
  ],
  λ (t, i, s, k) e. match_moments-none fork moments d e t i k,
)
