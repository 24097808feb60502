-- ===== src/Transcript.antt =====
-- crates/autofork-daemon/src/transcript.rs: the two readers of what an Agent call quotes.
pub mod Fingerprint
pub mod Scan
pub mod Read
pub mod Merge
pub mod Lines
pub mod Incremental
pub mod Tests
use forksan.Prelude.{
  ℕ, Bool, true, false, not, ◌&&◌, ◌||◌, List, [], ◌∷◌, Option, none, some, Text, codes, find_text,
  is_empty, leb, nat_eq, ◌==◌, if◌then◌else◌,
}
use forksan.Wake.{spawn_ctx_prefix}

abbrev some_name : Option (Text × Text) → Option Text
some_name none = none
some_name (some (name, rest)) = if is_empty name then none else some name

-- `find` gives the text before and behind the first occurrence: the name is what stands before the
-- quote in the text behind the fingerprint.
unfoldable pub fork_name_from_prompt : Text → Option Text
fork_name_from_prompt prompt = elim (find_text spawn_ctx_prefix prompt) [
  | none ↦ none
  | some (before, behind) ↦ some_name (find_text (codes "'") behind)
]

unfoldable pub is_ascii_alphanumeric : ℕ → Bool
is_ascii_alphanumeric c =
    (leb b'0' c && leb c b'9') || ((leb b'A' c && leb c b'Z') || (leb b'a' c && leb c b'z'))

is_id_char : ℕ → Bool
unfolding is_ascii_alphanumeric
is_id_char c = is_ascii_alphanumeric c || (c == b'-' || c == b'_')

-- The longest prefix of such characters.
id_chars : Text → Text
unfolding is_id_char
id_chars [] = []
id_chars (c ∷ s) = let rest = id_chars s in if is_id_char c then c ∷ rest else []

unfoldable pub agent_id_from_result : Text → Option Text
unfolding id_chars
agent_id_from_result text = elim (find_text (codes "agentId: ") text) [
  | none ↦ none
  | some (before, behind) ↦ let id = id_chars behind in if is_empty id then none else some id
]
