-- ===== src/Transcript/Read.antt =====
-- transcript.rs, `read_delta`: the complete lines behind an offset. A file is its bytes.
use forksan.Prelude.{
  ℕ, zero, suc, ◌+◌, Bool, true, false, List, [], ◌∷◌, Option, none, some, Text, length, ltb,
  nat_beq, if◌then◌else◌, from_utf8,
}
use forksan.Json.{Json, and_then}
use forksan.Transcript.Scan.{Delta, scan_value}

-- `seek(SeekFrom::Start(n))`
unfoldable pub drop : {A : Type 0} → ℕ → List A → List A
drop zero s = s
drop (suc n) [] = []
drop (suc n) (x ∷ s) = drop n s

-- The lines that end, each with its newline, and what stands behind the last newline.
pub record Lines : Type 0 where
  pub complete : List (List ℕ)
  pub partial : List ℕ

unfoldable pub prepend : ℕ → List (List ℕ) → List ℕ → Lines
prepend b [] p = record { complete = []; partial = b ∷ p }
prepend b (l ∷ ls) p = record { complete = (b ∷ l) ∷ ls; partial = p }

-- What the successive calls of `read_line` give.
unfoldable pub split_lines : List ℕ → Lines
split_lines [] = record { complete = []; partial = [] }
split_lines (b ∷ s) =
    let rest = split_lines s in
    if nat_beq b 10
    then record { complete = (b ∷ []) ∷ rest.complete; partial = rest.partial }
    else prepend b rest.complete rest.partial

unfoldable pub is_readable : List ℕ → Bool
is_readable p = elim (from_utf8 p) [ none ↦ false | some text ↦ true ]

abbrev pub from_offset : ℕ → Delta
from_offset start = record {
  new_offset = start;
  prompt_tokens = none;
  model = none;
  spawns = [];
  task_ids = [];
  notifications = [];
}

-- `serde_json::from_str`
module _ (from_str : Text → Option Json) where
  unfoldable pub scan_parsed : Option Json → Delta → Delta
  scan_parsed none delta = delta
  scan_parsed (some value) delta = scan_value value delta

  -- A line that does not parse is passed over. The offset advances by its bytes either way.
  unfoldable pub scan_line : Text → ℕ → Delta → Delta
  unfolding scan_parsed
  scan_line line n delta =
      scan_parsed (from_str line) (record delta { new_offset = delta.new_offset + n })

  -- A line that is no UTF-8 is an error of the read.
  unfoldable pub scan_bytes : Option Text → ℕ → Delta → Option Delta
  scan_bytes none n delta = none
  scan_bytes (some line) n delta = some (scan_line line n delta)

  unfoldable pub scan_lines : List (List ℕ) → Delta → Option Delta
  scan_lines [] delta = some delta
  scan_lines (line ∷ lines) delta =
      and_then (scan_bytes (from_utf8 line) (length line) delta) (λ d. scan_lines lines d)

  -- The partial line is read too, so it fails the read if it is no UTF-8; it adds nothing.
  unfoldable pub read_lines : Lines → Delta → Option Delta
  read_lines lines delta =
      if is_readable lines.partial then scan_lines lines.complete delta else none

  -- The bytes of a file that was opened; `none` is an error of a read. A file that shrank is read from
  -- its start.
  unfoldable pub read_delta : List ℕ → ℕ → Option Delta
  read_delta bytes offset =
      let start = if ltb (length bytes) offset then 0 else offset in
      read_lines (split_lines (drop start bytes)) (from_offset start)
