-- ===== src/Frontmatter/Values.antt =====
-- What holds of the values that parse: percentages, `after` and `tags`.
use forksan.Prelude.{
  ℕ, ◌≡◌, ◌≢◌, ◌≤◌, inl, inr, ap, sym, false, List, [], ◌∷◌, ◌++◌, Option, some, Text, text_eq,
  ◌==◌, ==_refl, contains, contains-In, parse_u64, is_empty, In, In-append, IsDistinct,
  IsDistinct-snoc, arith, Bool-cases, trim, split,
}
use forksan.Yaml.{mapping, entry, end, Value, Values, number, string, sequence, nil, cons}
use forksan.Frontmatter.{context_used_pct}
use forksan.Frontmatter.Parse.{
  trim_end_percent, parse_run_on_entry, plain_trigger, keyed_trigger, checked, parse_percent,
  percent_of, push_deps, parse_after, parse_tags, push_pieces, push_split, push_tags,
}

percent_of-bounds : (o : Option ℕ) (p : ℕ) → percent_of o ≡ some p → (1 ≤ p) × (p ≤ 100)
unfolding percent_of
percent_of-bounds o p h = ground arith

-- A percentage is between 1 and 100, however it is written.
pub parse_percent-bounds : (v : Value) (p : ℕ) → parse_percent v ≡ some p → (1 ≤ p) × (p ≤ 100)
unfolding parse_percent
parse_percent-bounds (number n) p h = percent_of-bounds n p h
parse_percent-bounds (string s) p h =
    percent_of-bounds (parse_u64 (trim (trim_end_percent (trim s)))) p h
parse_percent-bounds _ p h = cc

not_listed : (xs : List Text) (a : Text) → contains xs a ≡ false → ¬ In a xs
not_listed xs a h m = cc ((contains-In xs a).1 m, h)

-- A list of names that is free of duplicates and of one name.
abbrev pub IsClean : Text → List Text → Type 0
IsClean name xs = IsDistinct xs × ¬ In name xs

-- The fork's own name and what was pushed already are left out.
push_deps-IsClean :
    (name : Text) (deps out : List Text)
    → IsClean name out
    → IsClean name (push_deps name deps out).0
unfolding push_deps
push_deps-IsClean name [] out c = c
push_deps-IsClean name (dep ∷ deps) out c = elim (Bool-cases (dep == name)) [
  | inl own ↦ rw own (push_deps-IsClean name deps out c)
  | inr other ↦ elim (Bool-cases (contains out dep)) [
    | inl old ↦ rw (other, old) (push_deps-IsClean name deps out c)
    | inr new ↦
        rw (other, new)
          (push_deps-IsClean name deps (out ++ (dep ∷ []))
            (IsDistinct-snoc out dep (not_listed out dep new) c.0, still other))
  ]
]
  where
    still : (dep == name) ≡ false → ¬ In name (out ++ (dep ∷ []))
    still other m = elim (In-append name out (dep ∷ []) m) [
      | inl k ↦ c.1 k
      | inr k ↦ elim k [ inl e ↦ cc (ap (λ x. x == name) (sym e), ==_refl name, other) | inr f ↦ f ]
    ]

pub parse_after-IsClean : (v : Value) (name : Text) → IsClean name (parse_after v name).0
unfolding parse_after
parse_after-IsClean v name = push_deps-IsClean name _ [] (tt, λ m. m)

pub push_pieces-IsClean :
    (pieces out : List Text) → IsClean [] out → IsClean [] (push_pieces pieces out)
unfolding push_pieces
push_pieces-IsClean [] out c = c
push_pieces-IsClean (piece ∷ pieces) out c = elim (Bool-cases (is_empty (trim piece))) [
  | inl blank ↦ rw blank (push_pieces-IsClean pieces out c)
  | inr full ↦ elim (Bool-cases (contains out (trim piece))) [
    | inl old ↦ rw (full, old) (push_pieces-IsClean pieces out c)
    | inr new ↦
        rw (full, new)
          (push_pieces-IsClean pieces (out ++ (trim piece ∷ [])) (
            IsDistinct-snoc out (trim piece) (not_listed out (trim piece) new) c.0,
            still (trim piece) full,
          ))
  ]
]
  where
    still : (t : Text) → is_empty t ≡ false → ¬ In [] (out ++ (t ∷ []))
    still t full m = elim (In-append [] out (t ∷ []) m) [
      | inl k ↦ c.1 k
      | inr k ↦ elim k [ inl e ↦ cc (ap is_empty e, full) | inr f ↦ f ]
    ]

push_split-IsClean : (s : Text) (out : List Text) → IsClean [] out → IsClean [] (push_split s out)
unfolding push_split
push_split-IsClean s out c = push_pieces-IsClean (split b',' s) out c

push_tags-IsClean :
    (vs : Values) (name : Text) (out : List Text)
    → IsClean [] out
    → IsClean [] (push_tags vs name out).0
unfolding push_tags
push_tags-IsClean nil name out c = c
push_tags-IsClean (cons (string s) vs) name out c =
    push_tags-IsClean vs name _ (push_split-IsClean s out c)
push_tags-IsClean (cons _ vs) name out c = push_tags-IsClean vs name out c

pub parse_tags-IsClean : (v : Value) (name : Text) → IsClean [] (parse_tags v name).0
unfolding parse_tags
parse_tags-IsClean (string s) name = push_split-IsClean s [] (tt, λ m. m)
parse_tags-IsClean (sequence seq) name = push_tags-IsClean seq name [] (tt, λ m. m)
parse_tags-IsClean _ name = (tt, λ m. m)

keyed_trigger-percentage :
    (key : Text) (val : Value) (p : ℕ)
    → (keyed_trigger key val).0 ≡ some (context_used_pct p)
    → (1 ≤ p) × (p ≤ 100)
unfolding keyed_trigger checked
keyed_trigger-percentage key val p h = ground (arith, parse_percent-bounds val p)

plain_trigger-percentage : (s : Text) (p : ℕ) → (plain_trigger s).0 ≢ some (context_used_pct p)
unfolding plain_trigger
plain_trigger-percentage s p h = ground arith

pub parse_run_on_entry-percentage :
    (v : Value) (p : ℕ) → (parse_run_on_entry v).0 ≡ some (context_used_pct p) → (1 ≤ p) × (p ≤ 100)
unfolding parse_run_on_entry
parse_run_on_entry-percentage (string s) p h = absurd (plain_trigger-percentage s p h)
parse_run_on_entry-percentage (mapping (entry (string key) val end)) p h =
    keyed_trigger-percentage key val p h
parse_run_on_entry-percentage _ p h = cc
