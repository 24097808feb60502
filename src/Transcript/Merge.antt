-- ===== src/Transcript/Merge.antt =====
-- transcript.rs: an entry adds to an earlier delta what it adds to an empty one.
use forksan.Prelude.{
  ℕ, ◌+◌, ◌≡◌, refl, ap, ◌∙◌, Bool, true, false, List, [], ◌∷◌, ◌++◌, Option, none, some, Text,
  arith, append_assoc, if◌then◌else◌, codes, text_eq,
}
use forksan.Json.{
  Json, null, boolean, number, string, array, object, get, get_str, and_then, elements,
}
use forksan.Transcript.Scan.{
  Delta, is_str, replace, scan_assistant, scan_message, scan_entry, scan_result, scan_result_of,
  scan_text, scan_block, scan_blocks, scan_content, scan_user, scan_value,
}
use forksan.Transcript.Read.{scan_bytes, scan_parsed, scan_line}

-- What a later delta adds to an earlier one.
abbrev pub merge : Delta → Delta → Delta
merge a d = record {
  new_offset = d.new_offset;
  prompt_tokens = replace d.prompt_tokens a.prompt_tokens;
  model = replace d.model a.model;
  spawns = a.spawns ++ d.spawns;
  task_ids = a.task_ids ++ d.task_ids;
  notifications = a.notifications ++ d.notifications;
}

replace_assoc : {A : Type 0} (x y z : Option A) → replace x (replace y z) ≡ replace (replace x y) z
replace_assoc none y z = refl
replace_assoc (some x) y z = refl

module _ (a : Delta) where
  scan_message-merge :
      (m : Json) (d : Delta) → scan_message m (merge a d) ≡ merge a (scan_message m d)
  unfolding scan_message
  scan_message-merge m d = simp (replace_assoc, append_assoc)

  scan_entry-merge :
      (o : Option Json) (d : Delta) → scan_entry o (merge a d) ≡ merge a (scan_entry o d)
  unfolding scan_entry
  scan_entry-merge none d = refl
  scan_entry-merge (some m) d = scan_message-merge m d

  scan_text-merge :
      (text : Option Text) (d : Delta) → scan_text text (merge a d) ≡ merge a (scan_text text d)
  unfolding scan_text
  scan_text-merge text d = simp append_assoc

  scan_result-merge :
      (o : Option Text) (block : Json) (d : Delta)
      → scan_result_of o block (merge a d) ≡ merge a (scan_result_of o block d)
  unfolding scan_result_of
  scan_result-merge none block d = refl
  scan_result-merge (some id) block d = simp append_assoc

  if-merge :
      (c : Bool) (f g : Delta → Delta) (d : Delta)
      → f (merge a d) ≡ merge a (f d)
      → g (merge a d) ≡ merge a (g d)
      → (if c then f (merge a d) else g (merge a d)) ≡ merge a (if c then f d else g d)
  if-merge true f g d p q = p
  if-merge false f g d p q = q

  scan_block-merge :
      (block : Json) (d : Delta) → scan_block block (merge a d) ≡ merge a (scan_block block d)
  unfolding scan_block scan_result
  scan_block-merge block d =
      let type = get_str (codes "type") block in
      let as_text = λ (x : Delta). scan_text (get_str (codes "text") block) x in
      if-merge (is_str type (codes "tool_result"))
        (λ x. scan_result_of (get_str (codes "tool_use_id") block) block x)
        (λ x. if is_str type (codes "text") then as_text x else x) d
        (scan_result-merge (get_str (codes "tool_use_id") block) block d)
        (if-merge (is_str type (codes "text")) as_text (λ x. x) d
          (scan_text-merge (get_str (codes "text") block) d) refl)

  scan_blocks-merge :
      (blocks : List Json) (d : Delta)
      → scan_blocks blocks (merge a d) ≡ merge a (scan_blocks blocks d)
  unfolding scan_blocks
  scan_blocks-merge [] d = refl
  scan_blocks-merge (block ∷ blocks) d =
      ap (scan_blocks blocks) (scan_block-merge block d)
      ∙ scan_blocks-merge blocks (scan_block block d)

  scan_content-merge :
      (o : Option Json) (d : Delta) → scan_content o (merge a d) ≡ merge a (scan_content o d)
  unfolding scan_content
  scan_content-merge none d = refl
  scan_content-merge (some (string text)) d = scan_text-merge (some text) d
  scan_content-merge (some (array items)) d = scan_blocks-merge (elements items) d
  scan_content-merge (some null) d = refl
  scan_content-merge (some (boolean b)) d = refl
  scan_content-merge (some (number n)) d = refl
  scan_content-merge (some (object fs)) d = refl

  scan_value-merge : (v : Json) (d : Delta) → scan_value v (merge a d) ≡ merge a (scan_value v d)
  unfolding scan_value scan_assistant scan_user
  scan_value-merge v d =
      let type = get_str (codes "type") v in
      let content = and_then (get (codes "message") v) (λ m. get (codes "content") m) in
      if-merge (is_str type (codes "assistant")) (λ x. scan_entry (get (codes "message") v) x)
        (λ x. if is_str type (codes "user") then scan_content content x else x) d
        (scan_entry-merge (get (codes "message") v) d)
        (if-merge (is_str type (codes "user")) (λ x. scan_content content x) (λ x. x) d
          (scan_content-merge content d) refl)

  module _ (from_str : Text → Option Json) where
    scan_parsed-merge :
        (o : Option Json) (d : Delta)
        → scan_parsed from_str o (merge a d) ≡ merge a (scan_parsed from_str o d)
    unfolding scan_parsed
    scan_parsed-merge none d = refl
    scan_parsed-merge (some v) d = scan_value-merge v d

    pub scan_bytes-merge :
        (o : Option Text) (n : ℕ) (d : Delta)
        → scan_bytes from_str o n (merge a d)
          ≡ and_then (scan_bytes from_str o n d) (λ r. some (merge a r))
    unfolding scan_bytes scan_line
    scan_bytes-merge none n d = refl
    scan_bytes-merge (some line) n d =
        ap some (scan_parsed-merge (from_str line) (record d { new_offset = d.new_offset + n }))

-- Scanning leaves the offset alone.
scan_entry-offset : (o : Option Json) (d : Delta) → (scan_entry o d).new_offset ≡ d.new_offset
unfolding scan_entry scan_message
scan_entry-offset none d = refl
scan_entry-offset (some m) d = refl

scan_block-offset : (block : Json) (d : Delta) → (scan_block block d).new_offset ≡ d.new_offset
unfolding scan_block scan_result scan_result_of scan_text
scan_block-offset block d = ground arith

scan_blocks-offset :
    (blocks : List Json) (d : Delta) → (scan_blocks blocks d).new_offset ≡ d.new_offset
unfolding scan_blocks
scan_blocks-offset [] d = refl
scan_blocks-offset (block ∷ blocks) d =
    scan_blocks-offset blocks (scan_block block d) ∙ scan_block-offset block d

scan_content-offset : (o : Option Json) (d : Delta) → (scan_content o d).new_offset ≡ d.new_offset
unfolding scan_content scan_text
scan_content-offset none d = refl
scan_content-offset (some (string text)) d = refl
scan_content-offset (some (array items)) d = scan_blocks-offset (elements items) d
scan_content-offset (some null) d = refl
scan_content-offset (some (boolean b)) d = refl
scan_content-offset (some (number n)) d = refl
scan_content-offset (some (object fs)) d = refl

scan_value-offset : (v : Json) (d : Delta) → (scan_value v d).new_offset ≡ d.new_offset
unfolding scan_value scan_assistant scan_user
scan_value-offset v d = ground (
  arith,
  scan_entry-offset (get (codes "message") v) d,
  scan_content-offset (and_then (get (codes "message") v) (λ m. get (codes "content") m)) d,
)

pub scan_line-offset :
    (from_str : Text → Option Json) (line : Text) (n : ℕ) (d : Delta)
    → (scan_line from_str line n d).new_offset ≡ d.new_offset + n
unfolding scan_line scan_parsed
scan_line-offset from_str line n d = go (from_str line) (record d { new_offset = d.new_offset + n })
  where
    go : (o : Option Json) (e : Delta) → (scan_parsed from_str o e).new_offset ≡ e.new_offset
    go none e = refl
    go (some v) e = scan_value-offset v e
