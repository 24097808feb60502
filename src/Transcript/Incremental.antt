-- ===== src/Transcript/Incremental.antt =====
-- transcript.rs, `read_delta`: what reads of a growing transcript add up to.
use forksan.Prelude.{
  ℕ, ◌+◌, ◌≤◌, ◌≡◌, refl, sym, ap, ◌∙◌, Bool, true, false, List, [], ◌∷◌, ◌++◌, Option, none, some,
  Text, arith, length, append-nil, if◌then◌else◌, from_utf8, ltb,
}
use forksan.Json.{Json, and_then}
use forksan.Transcript.Scan.{Delta}
use forksan.Transcript.Read.{
  drop, Lines, split_lines, scan_line, scan_bytes, scan_lines, is_readable, read_lines, from_offset,
  read_delta,
}
use forksan.Transcript.Lines.{
  bytes_of, rejoined, rejoined-split_lines, behind, split_lines-append, length-drop, drop-append,
  drop-drop, drop-rejoined, length-append, bytes_of-le,
}
use forksan.Transcript.Merge.{merge, scan_bytes-merge, scan_line-offset}

module _ {A B : Type 0} where
  and_then-cong :
      (o : Option A) (f g : A → Option B) → ((a : A) → f a ≡ g a) → and_then o f ≡ and_then o g
  and_then-cong none f g h = refl
  and_then-cong (some a) f g h = h a

module _ {A B C : Type 0} where
  and_then_assoc :
      (o : Option A) (f : A → Option B) (g : B → Option C)
      → and_then (and_then o f) g ≡ and_then o (λ a. and_then (f a) g)
  and_then_assoc none f g = refl
  and_then_assoc (some a) f g = refl

module _ (from_str : Text → Option Json) where
  scan_lines-append :
      (xs ys : List (List ℕ)) (d : Delta)
      → scan_lines from_str (xs ++ ys) d
        ≡ and_then (scan_lines from_str xs d) (λ r. scan_lines from_str ys r)
  unfolding scan_lines
  scan_lines-append [] ys d = refl
  scan_lines-append (x ∷ xs) ys d =
      let o = scan_bytes from_str (from_utf8 x) (length x) d in
      and_then-cong o _ _ (λ r. scan_lines-append xs ys r)
      ∙ sym (and_then_assoc o (λ r. scan_lines from_str xs r) (λ r. scan_lines from_str ys r))

  scan_lines-merge :
      (a : Delta) (xs : List (List ℕ)) (d : Delta)
      → scan_lines from_str xs (merge a d)
        ≡ and_then (scan_lines from_str xs d) (λ r. some (merge a r))
  unfolding scan_lines
  scan_lines-merge a [] d = refl
  scan_lines-merge a (x ∷ xs) d =
      let o = scan_bytes from_str (from_utf8 x) (length x) d in
      ap (λ p. and_then p (λ r. scan_lines from_str xs r))
        (scan_bytes-merge a from_str (from_utf8 x) (length x) d)
      ∙ (and_then_assoc o (λ r. some (merge a r)) (λ r. scan_lines from_str xs r)
          ∙ (and_then-cong o _ _ (λ r. scan_lines-merge a xs r)
              ∙ sym (and_then_assoc o (λ r. scan_lines from_str xs r) (λ r. some (merge a r)))))

-- The offset goes up by the bytes of the lines.
scan_lines-offset :
    (from_str : Text → Option Json) (xs : List (List ℕ)) (d r : Delta)
    → scan_lines from_str xs d ≡ some r
    → r.new_offset ≡ d.new_offset + bytes_of xs
unfolding scan_lines scan_bytes
scan_lines-offset from_str [] d r h = ground (arith, h)
scan_lines-offset from_str (x ∷ xs) d r h =
    step (from_utf8 x) (λ s q. scan_lines-offset from_str xs s r q) h
  where
    step :
        (o : Option Text)
        → ((s : Delta)
            → scan_lines from_str xs s ≡ some r
            → r.new_offset ≡ s.new_offset + bytes_of xs)
        → and_then (scan_bytes from_str o (length x) d) (λ s. scan_lines from_str xs s) ≡ some r
        → r.new_offset ≡ d.new_offset + (length x + bytes_of xs)
    step none ih e = cc e
    step (some line) ih e = omega (
      arith,
      scan_line-offset from_str line (length x) d,
      ih (scan_line from_str line (length x) d) e,
    )

readable-some :
    (c : Bool) (o : Option Delta) (d : Delta)
    → (if c then o else none) ≡ some d
    → (c ≡ true) × (o ≡ some d)
readable-some true o d h = (refl, h)
readable-some false o d h = cc

-- A delta adds itself to the empty one at its offset.
merge-from_offset : (a : Delta) → merge a (from_offset a.new_offset) ≡ a
merge-from_offset a = simp append-nil

not_shrunk :
    (from_str : Text → Option Json) (bytes : List ℕ) (offset : ℕ)
    → offset ≤ length bytes
    → read_delta from_str bytes offset
      ≡ read_lines from_str (split_lines (drop offset bytes)) (from_offset offset)
unfolding read_delta
not_shrunk from_str bytes offset h =
    let e : ltb (length bytes) offset ≡ false = ground arith in rw e refl

module _ (from_str : Text → Option Json) (bytes more : List ℕ) (offset : ℕ) (first : Delta)
    (within : offset ≤ length bytes) (once : read_delta from_str bytes offset ≡ some first) where
  abbrev seen : Lines
  seen = split_lines (drop offset bytes)

  scanned : scan_lines from_str seen.complete (from_offset offset) ≡ some first
  unfolding read_lines
  scanned = (readable-some _ _ first (sym (not_shrunk from_str bytes offset within) ∙ once)).1

  reached : first.new_offset ≡ offset + bytes_of seen.complete
  reached = scan_lines-offset from_str seen.complete (from_offset offset) first scanned

  pieces : rejoined seen.complete seen.partial ≡ drop offset bytes
  pieces = rejoined-split_lines (drop offset bytes)

  inside : first.new_offset ≤ length (bytes ++ more)
  inside = omega (
    arith,
    reached,
    bytes_of-le seen.complete seen.partial,
    ap length pieces,
    length-drop offset bytes within,
    length-append bytes more,
  )

  -- The next read begins at the partial line.
  resumed : drop first.new_offset (bytes ++ more) ≡ seen.partial ++ more
  resumed =
      ap (λ n. drop n (bytes ++ more)) reached
      ∙ (sym (drop-drop offset (bytes_of seen.complete) (bytes ++ more))
          ∙ (ap (drop (bytes_of seen.complete))
                (drop-append offset bytes more within ∙ ap (λ s. s ++ more) (sym pieces))
              ∙ drop-rejoined seen.complete seen.partial more))

  abbrev later : Lines
  later = split_lines (seen.partial ++ more)

  at_once :
      read_delta from_str (bytes ++ more) offset
      ≡ read_lines from_str (behind seen.complete later) (from_offset offset)
  at_once =
      not_shrunk from_str (bytes ++ more) offset (omega (arith, length-append bytes more))
      ∙ ap (λ l. read_lines from_str l (from_offset offset))
          (ap split_lines (drop-append offset bytes more within)
            ∙ split_lines-append (drop offset bytes) more)

  two_reads :
      (second : Delta)
      → read_lines from_str later (from_offset first.new_offset) ≡ some second
      → read_lines from_str (behind seen.complete later) (from_offset offset)
        ≡ some (merge first second)
  unfolding read_lines
  two_reads second h =
      let (readable, rest) =
        readable-some (is_readable later.partial)
          (scan_lines from_str later.complete (from_offset first.new_offset)) second h in
      rw readable (
        scan_lines-append from_str seen.complete later.complete (from_offset offset)
        ∙ (ap (λ o. and_then o (λ r. scan_lines from_str later.complete r)) scanned
            ∙ (ap (scan_lines from_str later.complete) (sym (merge-from_offset first))
                ∙ (scan_lines-merge from_str first later.complete (from_offset first.new_offset)
                    ∙ ap (λ o. and_then o (λ r. some (merge first r))) rest))))

-- Reading a transcript as it grows loses nothing and repeats nothing: when a read is followed by one from
-- the offset that it gave, after more was appended, the two deltas add up to what one read of the longer
-- file from the first offset gives, wherever the first read broke off, as long as the file is not shorter
-- than the first offset.
pub read_delta-append :
    (from_str : Text → Option Json) (bytes more : List ℕ) (offset : ℕ) (first second : Delta)
    → offset ≤ length bytes
    → read_delta from_str bytes offset ≡ some first
    → read_delta from_str (bytes ++ more) first.new_offset ≡ some second
    → read_delta from_str (bytes ++ more) offset ≡ some (merge first second)
read_delta-append from_str bytes more offset first second within once again =
    at_once from_str bytes more offset first within once
    ∙ two_reads from_str bytes more offset first within once second (
        ap (λ s. read_lines from_str (split_lines s) (from_offset first.new_offset))
          (sym (resumed from_str bytes more offset first within once))
        ∙ (sym (
              not_shrunk from_str (bytes ++ more) first.new_offset
                (inside from_str bytes more offset first within once))
            ∙ again))
