-- ===== src/Tags.antt =====
-- crates/autofork-core/src/tags.rs: which forks the enable and disable lists let run.
pub mod Filter
pub mod Tests
use forksan.Prelude.{
  Bool, true, not, ◌&&◌, List, Option, none, some, Text, text_eq, any, contains, is_empty,
  if◌then◌else◌,
}

-- `fork_tags.iter().any(|t| list.iter().any(|d| d == t))`
unfoldable pub shares_tag : List Text → List Text → Bool
shares_tag fork_tags list = any (λ t. contains list t) fork_tags

is_disabled : List Text → Option (List Text) → Bool
is_disabled fork_tags none = Bool.false
is_disabled fork_tags (some disable) = shares_tag fork_tags disable

is_enabled : List Text → Option (List Text) → Bool
is_enabled fork_tags none = true
is_enabled fork_tags (some enable) =
    if not (is_empty enable) then shares_tag fork_tags enable else true

unfoldable pub tags_allowed : List Text → Option (List Text) → Option (List Text) → Bool
unfolding is_disabled is_enabled
tags_allowed fork_tags enable disable =
    if is_disabled fork_tags disable then Bool.false else is_enabled fork_tags enable
