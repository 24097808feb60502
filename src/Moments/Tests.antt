-- ===== src/Moments/Tests.antt =====
-- The moments of the source's tests, and the theorems of the siblings at them.
use forksan.Prelude.{
  ◌≡◌, ◌≢◌, ◌↔◌, refl, true, List, [], ◌∷◌, none, some, codes, In, contains_text, sort_by, contains,
  find, any, saturating_mul, false,
}
use forksan.Frontmatter.{ForkDef, ForkRunOn, context_used_pct, compact, is_supported}
use forksan.Moments.{idle, context, hits, match_moments, idle_deadlines, resolve_context_window}
use forksan.Moments.Match.{match_moments_iff, IsHit}
use forksan.Moments.Deadlines.{idle_deadlines-match_moments}

abbrev fork_on : List ForkRunOn → ForkDef
fork_on run_on = record {
  description = none;
  run_on = run_on;
  throttle_secs = none;
  after = [];
  overlap = false;
  tags = [];
}

abbrev forks : List ForkDef
forks =
    fork_on (ForkRunOn.idle none ∷ [])
    ∷ fork_on (ForkRunOn.idle (some 1200) ∷ [])
    ∷ fork_on (ForkRunOn.idle (some 600) ∷ compact ∷ [])
    ∷ []

collected : idle_deadlines forks 240 ≡ 240 ∷ 600 ∷ 1200 ∷ []
unfolding idle_deadlines sort_by contains any
collected = refl

used_fires :
    match_moments (fork_on (context_used_pct 80 ∷ [])) (context 170_000 (some 200_000) ∷ []) 240
    ≡ some (context_used_pct 80)
unfolding match_moments hits find saturating_mul
used_fires = refl

fable_window : resolve_context_window (some (codes "claude-fable-5")) (some 50_000) ≡ 1_000_000
unfolding resolve_context_window contains_text
fable_window = refl

match_moments_iff_example : (match_moments (fork_on (compact ∷ [])) (idle 240 ∷ []) 240 ≢ none) ↔ (
    (t : ForkRunOn) × In t (compact ∷ []) × (is_supported t ≡ true) × IsHit 240 (idle 240 ∷ []) t)
match_moments_iff_example = match_moments_iff (fork_on (compact ∷ [])) (idle 240 ∷ []) 240

idle_deadlines-match_moments_example :
    In 600 (idle_deadlines forks 240)
    ↔ ((fork : ForkDef) × In fork forks × (match_moments fork (idle 600 ∷ []) 240 ≢ none))
idle_deadlines-match_moments_example = idle_deadlines-match_moments forks 240 600
