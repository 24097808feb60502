-- ===== src/Notification.antt =====
-- crates/autofork-core/src/notification.rs: the envelope of a background-task notification.
pub mod Tests
use forksan.Prelude.{
  Bool, true, false, ◌||◌, [], ◌∷◌, ◌++◌, Option, none, some, Text, codes, trim, trim_start,
  starts_with, find_text, is_empty, ◌==◌, text_eq, if◌then◌else◌,
}

abbrev pub task_notification_prefix : Text
task_notification_prefix = codes "<task-notification>"

pub record TaskNotification : Type 0 where
  pub tool_use_id : Option Text
  pub task_id : Option Text
  pub status : Option Text

-- `None` if the trimmed value is empty.
non_empty : Text → Option Text
non_empty value = if is_empty value then none else some value

-- The text up to the closing tag, behind the opening one.
up_to : Text → Option (Text × Text) → Option Text
unfolding non_empty
up_to close none = none
up_to close (some (before, behind)) = elim (find_text close behind) [
  | none ↦ none
  | some (value, rest) ↦ non_empty (trim value)
]

unfoldable pub tag_value : Text → Text → Option Text
unfolding up_to
tag_value text name =
    up_to (codes "</" ++ (name ++ codes ">")) (find_text (codes "<" ++ (name ++ codes ">")) text)

unfoldable pub parse_task_notification : Text → Option TaskNotification
unfolding tag_value
parse_task_notification text =
    let trimmed = trim_start text in
    if starts_with trimmed task_notification_prefix
    then some (record {
      tool_use_id = tag_value trimmed (codes "tool-use-id");
      task_id = tag_value trimmed (codes "task-id");
      status = tag_value trimmed (codes "status");
    })
    else none

unfoldable pub is_terminal_status : Text → Bool
is_terminal_status status =
    status == codes "completed" || (status == codes "failed" || status == codes "stopped")
