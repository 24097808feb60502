-- ===== src/Transcript/Scan.antt =====
-- transcript.rs, `scan_assistant` and `scan_user`: what one entry of a transcript adds to the delta.
use mathlib.Core.List.{filter_map}
use forksan.Prelude.{
  ℕ, Bool, false, ◌&&◌, List, [], ◌∷◌, ◌++◌, Option, none, some, Text, codes, text_eq, ◌==◌, ltb,
  if◌then◌else◌, wrapping_add,
}
use forksan.Json.{Json, string, array, get, get_str, as_u64, as_array, and_then, elements}
use forksan.Notification.{TaskNotification, parse_task_notification}
use forksan.Transcript.{fork_name_from_prompt, agent_id_from_result}

pub record Delta : Type 0 where
  pub new_offset : ℕ
  pub prompt_tokens : Option ℕ
  pub model : Option Text
  pub spawns : List (Text × Option Text)
  pub task_ids : List (Text × Text)
  pub notifications : List TaskNotification

unfoldable pub is_str : Option Text → Text → Bool
is_str none s = false
is_str (some t) s = t == s

-- A new value replaces the one before.
abbrev pub replace : {A : Type 0} → Option A → Option A → Option A
replace none old = old
replace (some new) old = some new

-- `usage.get(k).and_then(|v| v.as_u64()).unwrap_or(0)`
token_field : Json → Text → ℕ
token_field usage k = elim (and_then (get k usage) as_u64) [ none ↦ 0 | some n ↦ n ]

-- The sum is taken modulo 2 ^ 64, and one of zero is no gauge.
unfoldable pub gauge_of : Json → Option ℕ
unfolding token_field
gauge_of usage =
    let total =
      wrapping_add
        (wrapping_add (token_field usage (codes "input_tokens"))
          (token_field usage (codes "cache_read_input_tokens")))
        (token_field usage (codes "cache_creation_input_tokens")) in
    if ltb 0 total then some total else none

-- The id and the name of the fork that an Agent call spawns.
spawn_in : Json → Option (Text × Option Text)
unfolding is_str
spawn_in block =
    if is_str (get_str (codes "type") block) (codes "tool_use")
      && is_str (get_str (codes "name") block) (codes "Agent")
    then and_then (get_str (codes "id") block) (λ id. and_then (get (codes "input") block) (λ input.
      if is_str (get_str (codes "subagent_type") input) (codes "fork")
      then some (id, and_then (get_str (codes "prompt") input) fork_name_from_prompt)
      else none))
    else none

list_or_nil : {A : Type 0} → Option (List A) → List A
list_or_nil none = []
list_or_nil (some l) = l

unfoldable pub scan_message : Json → Delta → Delta
unfolding spawn_in list_or_nil
scan_message message delta = record delta {
  model = replace (get_str (codes "model") message) delta.model;
  prompt_tokens = replace (and_then (get (codes "usage") message) gauge_of) delta.prompt_tokens;
  spawns =
      delta.spawns
      ++ filter_map spawn_in (list_or_nil (and_then (get (codes "content") message) as_array));
}

unfoldable pub scan_entry : Option Json → Delta → Delta
scan_entry none delta = delta
scan_entry (some message) delta = scan_message message delta

unfoldable pub scan_assistant : Json → Delta → Delta
scan_assistant value delta = scan_entry (get (codes "message") value) delta

text_in : Json → Option Text
unfolding is_str
text_in item =
    if is_str (get_str (codes "type") item) (codes "text")
    then get_str (codes "text") item
    else none

texts_of : Json → List Text
unfolding text_in
texts_of (string s) = s ∷ []
texts_of (array items) = filter_map text_in (elements items)
texts_of v = []

unfoldable pub result_texts : Json → List Text
unfolding texts_of list_or_nil
result_texts block = elim (get (codes "content") block) [ none ↦ [] | some v ↦ texts_of v ]

task_id_in : Text → Text → Option (Text × Text)
task_id_in tool_use_id text = and_then (agent_id_from_result text) (λ id. some (tool_use_id, id))

unfoldable pub scan_result_of : Option Text → Json → Delta → Delta
unfolding task_id_in
scan_result_of none block delta = delta
scan_result_of (some id) block delta = record delta {
  task_ids = delta.task_ids ++ filter_map (task_id_in id) (result_texts block);
}

unfoldable pub scan_result : Json → Delta → Delta
scan_result block delta = scan_result_of (get_str (codes "tool_use_id") block) block delta

list_of_option : {A : Type 0} → Option A → List A
list_of_option none = []
list_of_option (some a) = a ∷ []

unfoldable pub scan_text : Option Text → Delta → Delta
unfolding list_of_option
scan_text text delta = record delta {
  notifications = delta.notifications ++ list_of_option (and_then text parse_task_notification);
}

unfoldable pub scan_block : Json → Delta → Delta
unfolding is_str
scan_block block delta =
    let type = get_str (codes "type") block in
    if is_str type (codes "tool_result")
    then scan_result block delta
    else if is_str type (codes "text")
    then scan_text (get_str (codes "text") block) delta
    else delta

unfoldable pub scan_blocks : List Json → Delta → Delta
scan_blocks [] delta = delta
scan_blocks (block ∷ blocks) delta = scan_blocks blocks (scan_block block delta)

unfoldable pub scan_content : Option Json → Delta → Delta
scan_content none delta = delta
scan_content (some (string text)) delta = scan_text (some text) delta
scan_content (some (array items)) delta = scan_blocks (elements items) delta
scan_content (some v) delta = delta

unfoldable pub scan_user : Json → Delta → Delta
scan_user value delta =
    scan_content (and_then (get (codes "message") value) (λ m. get (codes "content") m)) delta

-- What a line adds, if it parses.
unfoldable pub scan_value : Json → Delta → Delta
unfolding is_str
scan_value value delta =
    let type = get_str (codes "type") value in
    if is_str type (codes "assistant")
    then scan_assistant value delta
    else if is_str type (codes "user")
    then scan_user value delta
    else delta
