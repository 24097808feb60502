-- ===== src/Wake/Tests.antt =====
-- Payloads at concrete forks.
use forksan.Prelude.{starts_with, trim_start, contains_text, ◌≡◌, refl, true, false, [], ◌∷◌, codes}
use forksan.Wake.{DueFork, HeldFork, Ids, looks_like_continuation}

abbrev ids : Ids
ids = record { session_id = codes "s1"; conversation_id = codes "c1"; project_root = codes "/p" }

abbrev learner : DueFork
learner = record {
  name = codes "learner";
  path = codes "/p/.autofork/forks/learner.md";
  trigger = codes "idle";
  overlap = false;
  after = codes "journal" ∷ [];
}

abbrev deploy : HeldFork
deploy = record { name = codes "deploy"; after = codes "learner" ∷ [] }

user_prompt-continues : looks_like_continuation (codes "please fix the build") ≡ false
unfolding looks_like_continuation starts_with trim_start contains_text
user_prompt-continues = refl

notification-continues : looks_like_continuation (codes "  <task-notification>done") ≡ true
unfolding looks_like_continuation starts_with trim_start contains_text
notification-continues = refl
