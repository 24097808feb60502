-- ===== src/Transcript/Tests.antt =====
-- What the transcript watcher reads at concrete texts.
use forksan.Prelude.{
  wrapping_add, text_beq, ◌==◌, text_eq, ◌∷◌, if◌then◌else◌, arith, Option, Text, from_utf8, ℕ,
  find_text, ◌≡◌, refl, false, [], none, some, codes, has,
}
use forksan.Wake.{DueFork, Ids, spawn_prompt}
use forksan.Transcript.{fork_name_from_prompt, agent_id_from_result}
use forksan.Json.{
  as_u64, as_array, get_str, Json, Items, object, field, end, string, number, array, cons, nil,
}
use forksan.Transcript.Scan.{gauge_of, scan_message, scan_entry, scan_assistant, scan_value, Delta}
use forksan.Transcript.Read.{
  scan_line, scan_bytes, scan_lines, prepend, drop, split_lines, is_readable, read_lines,
  read_delta,
}
use forksan.Transcript.Merge.{merge}
use forksan.Transcript.Incremental.{read_delta-append}
use forksan.Transcript.Fingerprint.{fork_name_from_prompt-spawn_prompt}
use mathlib.Core.List.{filter_map}

abbrev ids : Ids
ids = record { session_id = codes "s1"; conversation_id = codes "c1"; project_root = codes "/p" }

abbrev journal : DueFork
journal = record {
  name = codes "j";
  path = codes "/p/.autofork/forks/j.md";
  trigger = codes "idle";
  overlap = false;
  after = [];
}

path_free : has b'\'' journal.path ≡ false
unfolding has
path_free = refl

name_free : has b'\'' journal.name ≡ false
unfolding has
name_free = refl

fork_name_from_prompt-paraphrased :
    fork_name_from_prompt (codes "paraphrased beyond recognition") ≡ none
unfolding fork_name_from_prompt find_text
fork_name_from_prompt-paraphrased = refl

agent_id_from_result-launched :
    agent_id_from_result (codes "Async agent launched.\nagentId: a1b2c3 (internal ID)")
    ≡ some (codes "a1b2c3")
unfolding agent_id_from_result find_text
agent_id_from_result-launched = refl

fork_name_from_prompt-spawn_prompt_example :
    fork_name_from_prompt (spawn_prompt journal ids) ≡ some (codes "j")
fork_name_from_prompt-spawn_prompt_example =
    fork_name_from_prompt-spawn_prompt journal ids path_free name_free refl

-- An assistant entry with its gauge and an Agent call that spawns a fork.
abbrev usage : ℕ → Json
usage n = object (field (codes "input_tokens") (number (some n)) end)

abbrev call : Json
call = object (
    field (codes "type") (string (codes "tool_use")) (
      field (codes "name") (string (codes "Agent")) (
        field (codes "id") (string (codes "t1")) (
          field (codes "input") (object (field (codes "subagent_type") (string (codes "fork")) end))
            end))))

abbrev assistant : ℕ → Items → Json
assistant n blocks = object (
    field (codes "type") (string (codes "assistant")) (
      field (codes "message")
        (object (field (codes "usage") (usage n) (field (codes "content") (array blocks) end)))
        end))

abbrev from_json : Text → Option Json
from_json line =
    if line == codes "a\n"
    then some (assistant 7 (cons call nil))
    else if line == codes "b\n"
    then some (assistant 9 nil)
    else none

abbrev first : Delta
first = record {
  new_offset = 2;
  prompt_tokens = some 7;
  model = none;
  spawns = (codes "t1", none) ∷ [];
  task_ids = [];
  notifications = [];
}

abbrev second : Delta
second = record {
  new_offset = 6;
  prompt_tokens = some 9;
  model = none;
  spawns = [];
  task_ids = [];
  notifications = [];
}

-- The second line is still being written when the first read comes.
read_delta-partial : read_delta from_json (codes "a\nb") 0 ≡ some first
unfolding read_delta read_lines is_readable from_utf8 split_lines drop prepend scan_lines scan_bytes
    scan_line text_beq scan_value get_str scan_assistant scan_entry scan_message gauge_of filter_map
    wrapping_add as_array as_u64
read_delta-partial = refl

read_delta-rest : read_delta from_json (codes "a\nb\nx\n") 2 ≡ some second
unfolding read_delta read_lines is_readable from_utf8 split_lines drop prepend scan_lines scan_bytes
    scan_line text_beq scan_value get_str scan_assistant scan_entry scan_message gauge_of filter_map
    wrapping_add as_array as_u64
read_delta-rest = refl

-- A file that is shorter than the offset is read from its start.
read_delta-shrunk : read_delta from_json (codes "a\n") 5 ≡ some first
unfolding read_delta read_lines is_readable from_utf8 split_lines drop prepend scan_lines scan_bytes
    scan_line text_beq scan_value get_str scan_assistant scan_entry scan_message gauge_of filter_map
    wrapping_add as_array as_u64
read_delta-shrunk = refl

-- A byte that starts no character fails the read.
read_delta-invalid : read_delta from_json (b'a' ∷ 10 ∷ 255 ∷ []) 0 ≡ none
unfolding read_delta read_lines is_readable from_utf8 split_lines drop prepend
read_delta-invalid = refl

read_delta-append_example : read_delta from_json (codes "a\nb\nx\n") 0 ≡ some (merge first second)
read_delta-append_example =
    read_delta-append from_json (codes "a\nb") (codes "\nx\n") 0 first second (omega arith)
      read_delta-partial read_delta-rest

-- Two bytes that are one character, and an overlong form.
from_utf8-two_bytes : from_utf8 (195 ∷ 169 ∷ []) ≡ some (233 ∷ [])
unfolding from_utf8
from_utf8-two_bytes = refl

from_utf8-overlong : from_utf8 (192 ∷ 128 ∷ []) ≡ none
unfolding from_utf8
from_utf8-overlong = refl
