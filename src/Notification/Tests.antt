-- ===== src/Notification/Tests.antt =====
-- The notifications of the source's tests.
use forksan.Prelude.{◌≡◌, refl, none, some, codes, trim, trim_start, starts_with, find_text}
use forksan.Notification.{parse_task_notification}

stopped_without_tool :
    parse_task_notification
      (codes "  \n<task-notification>\n<task-id>abc</task-id>\n<status>stopped</status>\n")
    ≡ some (record {
      tool_use_id = none;
      task_id = some (codes "abc");
      status = some (codes "stopped");
    })
unfolding parse_task_notification trim trim_start starts_with find_text
stopped_without_tool = refl

mid_text : parse_task_notification (codes "the string <task-notification> mid-text") ≡ none
unfolding parse_task_notification trim_start starts_with
mid_text = refl
