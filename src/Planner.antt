-- ===== src/Planner.antt =====
-- crates/autofork-daemon/src/planner.rs: what the planner reads and what it selects.
pub mod Select
pub mod Keys
pub mod Issue
pub mod Latches
pub mod Once
pub mod Named
pub mod Roots
pub mod Release
pub mod Tests
use mathlib.Core.List.{reverse}
use forksan.Prelude.{
  ℕ, Bool, true, false, not, ◌&&◌, ◌||◌, List, [], ◌∷◌, ◌++◌, map, filter, Option, none, some, Text,
  codes, to_string, find_text, split, is_empty, text_eq, ◌==◌, if◌then◌else◌,
}
use forksan.Frontmatter.File.{RawFork}
use forksan.Frontmatter.{
  ForkRunOn, ForkParse, context_tokens, context_used_pct, context_left, label,
}
use forksan.FileSystem.{FileSystem}
use forksan.Schedule.{Selected}
use forksan.Store.{Store, SessionRow}

-- A fork selected to fire.
pub record SelectedFork : Type 0 where
  pub name : Text
  pub path : Text
  pub trigger : Text
  pub overlap : Bool
  pub after : List Text
  pub tags : List Text
  pub latch_key : Option Text

instance abbrev pub selected_fork : Selected SelectedFork
selected_fork = record { name = SelectedFork.name; after = SelectedFork.after }

-- What selection reads: the disk, `serde_yaml::from_str`, and the folder of the user's own forks.
pub record Files : Type 0 where
  pub disk : FileSystem
  pub from_str : Text → Option RawFork
  pub user_forks_root : Text

-- The daemon's state: `waits` are the sessions with a channel that cancels a poll, `parked` counts the
-- polls of a session.
pub record Daemon : Type 0 where
  pub store : Store
  pub waits : Text → Bool
  pub wake_issued_at : Text → Option ℕ
  pub pending_close : Text → Option ℕ
  pub close_gen : ℕ
  pub last_busy : ℕ
  pub parked : Text → ℕ

unfoldable pub note_wake_issued : Text → ℕ → Daemon → Daemon
note_wake_issued session_id now d = record d {
  wake_issued_at = λ s. if s == session_id then some now else d.wake_issued_at s;
}

-- Context thresholds latch once for the session, idle triggers once for the pause.
unfoldable pub latch_key_for : ForkRunOn → ℕ → Option Text
latch_key_for (ForkRunOn.idle after_secs) pause_epoch =
    some (codes "idle-pause:" ++ to_string pause_epoch)
latch_key_for (context_tokens n) pause_epoch = some (label (context_tokens n))
latch_key_for (context_used_pct p) pause_epoch = some (label (context_used_pct p))
latch_key_for (context_left n) pause_epoch = some (label (context_left n))
latch_key_for _ pause_epoch = none

last_of {ℓ} : {A : Type ℓ} → List A → Option A
last_of [] = none
last_of (x ∷ []) = some x
last_of (x ∷ y ∷ ys) = last_of (y ∷ ys)

-- `Path::file_name`: the last component that is not `.`, unless it is `..`.
file_name : Text → Option Text
unfolding last_of
file_name path =
    elim (last_of (filter (λ c. not (is_empty c || c == codes ".")) (split b'/' path))) [
      | none ↦ none
      | some c ↦ if c == codes ".." then none else some c
    ]

-- `Path::file_stem`: the file name up to its last dot, unless nothing stands before that dot.
unfoldable pub file_stem : Text → Option Text
unfolding file_name
file_stem path = elim (file_name path) [
  | none ↦ none
  | some name ↦ elim (find_text (codes ".") (reverse name)) [
    | none ↦ some name
    | some (extension, stem) ↦ if is_empty stem then some name else some (reverse stem)
  ]
]

unfoldable pub conversation_id : SessionRow → Text
conversation_id session = elim session.transcript_path [
  | none ↦ session.session_id
  | some p ↦ elim (file_stem p) [ none ↦ session.session_id | some stem ↦ stem ]
]
