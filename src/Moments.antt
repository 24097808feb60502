-- ===== src/Moments.antt =====
-- crates/autofork-core/src/moments.rs: moments, and which trigger of a fork they match.
pub mod Match
pub mod Deadlines
pub mod Tests
use forksan.Prelude.{
  ℕ, ◌-◌, ◌*◌, max, Bool, true, false, not, ◌&&◌, ◌||◌, List, [], ◌∷◌, ◌++◌, Option, none, some,
  Text, codes, leb, ltb, ◌==◌, nat_eq, if◌then◌else◌, find, contains, contains_text, sort_by,
  saturating_mul,
}
use forksan.Frontmatter.{ForkDef, ForkRunOn, context_tokens, context_used_pct, context_left}

abbrev pub default_context_window : ℕ
default_context_window = 200_000

abbrev pub context_window_1m : ℕ
context_window_1m = 1_000_000

is_large_model : Text → Bool
is_large_model m =
    contains_text m (codes "[1m]")
    || contains_text m (codes "fable")
    || contains_text m (codes "mythos")

model_window : Option Text → ℕ
unfolding is_large_model
model_window none = default_context_window
model_window (some m) = if is_large_model m then context_window_1m else default_context_window

unfoldable pub resolve_context_window : Option Text → Option ℕ → ℕ
unfolding model_window
resolve_context_window model none = model_window model
resolve_context_window model (some pt) =
    let window = model_window model in if ltb window pt then max context_window_1m pt else window

pub data ForkMoment : Type 0 where
  idle : ℕ → ForkMoment
  context : ℕ → Option ℕ → ForkMoment

-- `after_secs.unwrap_or(default_idle_secs)`
abbrev pub effective : Option ℕ → ℕ → ℕ
effective none default_idle_secs = default_idle_secs
effective (some secs) default_idle_secs = secs

-- Whether a moment is one at which a trigger fires.
unfoldable pub hits : ℕ → ForkMoment → ForkRunOn → Bool
hits d (idle deadline) (ForkRunOn.idle after_secs) =
    ltb 0 (effective after_secs d) && effective after_secs d == deadline
hits d (context prompt_tokens max_tokens) (context_tokens n) = leb n prompt_tokens
hits d (context prompt_tokens none) (context_used_pct p) = false
hits d (context prompt_tokens (some window)) (context_used_pct p) =
    leb (saturating_mul window p) (saturating_mul prompt_tokens 100)
hits d (context prompt_tokens none) (context_left n) = false
hits d (context prompt_tokens (some window)) (context_left n) = leb (window - prompt_tokens) n
hits d _ _ = false

abbrev or_else {ℓ} : {A : Type ℓ} → Option A → Option A → Option A
or_else none later = later
or_else (some a) later = some a

-- The two loops of `match_moments`: moments outside, triggers inside.
unfoldable pub match_moments : ForkDef → List ForkMoment → ℕ → Option ForkRunOn
match_moments fork [] d = none
match_moments fork (m ∷ moments) d =
    or_else (find (hits d m) fork.run_on) (match_moments fork moments d)

-- `if d > 0 && !out.contains(&d) { out.push(d) }`
push_deadline : ℕ → List ℕ → List ℕ
push_deadline d out = if ltb 0 d && not (contains out d) then out ++ (d ∷ []) else out

collect_triggers : ℕ → List ForkRunOn → List ℕ → List ℕ
unfolding push_deadline
collect_triggers d [] out = out
collect_triggers d (ForkRunOn.idle after_secs ∷ ts) out =
    collect_triggers d ts (push_deadline (effective after_secs d) out)
collect_triggers d (t ∷ ts) out = collect_triggers d ts out

collect_deadlines : ℕ → List ForkDef → List ℕ → List ℕ
unfolding collect_triggers
collect_deadlines d [] out = out
collect_deadlines d (fork ∷ forks) out =
    collect_deadlines d forks (collect_triggers d fork.run_on out)

-- The idle deadlines that the forks need, in ascending order.
unfoldable pub idle_deadlines : List ForkDef → ℕ → List ℕ
unfolding collect_deadlines
idle_deadlines forks d = sort_by leb (collect_deadlines d forks [])
