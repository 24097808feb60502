-- ===== src/Frontmatter/Parse.antt =====
-- frontmatter.rs, the values of the frontmatter: triggers, `after` and `tags`. A function that pushes
-- warnings returns them with its result.
use mathlib.Core.List.{reverse}
use mathlib.Core.Option
use forksan.Prelude.{
  ℕ, not, ◌&&◌, ◌||◌, List, [], ◌∷◌, ◌++◌, Option, none, some, Text, codes, trim, parse_u64, split,
  is_empty, contains, text_eq, nat_eq, ◌==◌, leb, if◌then◌else◌,
}
use forksan.Yaml.{
  Value, Values, Entries, null, number, string, sequence, mapping, nil, cons, end, entry, get_key,
  as_str,
}
use forksan.Duration.{parse_duration_yaml}
use forksan.Frontmatter.{
  ForkRunOn, idle, context_tokens, context_used_pct, context_left, compact, session_start,
  session_end, manual_stop, boot,
}

drop_percent : Text → Text
drop_percent [] = []
drop_percent (c ∷ s) = let rest = drop_percent s in if c == b'%' then rest else c ∷ s

-- `s.trim_end_matches('%')`
unfoldable pub trim_end_percent : Text → Text
unfolding drop_percent
trim_end_percent s = reverse (drop_percent (reverse s))

unfoldable pub percent_of : Option ℕ → Option ℕ
percent_of none = none
percent_of (some n) = if leb 1 n && leb n 100 then some n else none

unfoldable pub parse_percent : Value → Option ℕ
unfolding percent_of trim_end_percent
parse_percent (number as_u64) = percent_of as_u64
parse_percent (string s) = percent_of (parse_u64 (trim (trim_end_percent (trim s))))
parse_percent v = none

unfoldable pub parse_token_count : Value → Option ℕ
parse_token_count (number as_u64) = as_u64
parse_token_count (string s) = parse_u64 (trim s)
parse_token_count v = none

unknown_trigger : Text → Text
unknown_trigger other = codes "unknown run_on trigger '" ++ (other ++ codes "', skipping")

unfoldable pub plain_trigger : Text → Option ForkRunOn × List Text
unfolding unknown_trigger
plain_trigger s =
    if s == codes "idle"
    then (some (idle none), [])
    else if s == codes "compact" || s == codes "compaction"
    then (some compact, [])
    else if s == codes "session_start"
    then (some session_start, [])
    else if s == codes "session_end"
    then (some session_end, [])
    else if s == codes "manual_stop"
    then (some manual_stop, [])
    else if s == codes "boot"
    then (some boot, [])
    else (none, unknown_trigger s ∷ [])

-- A value that does not parse is warned about.
unfoldable pub checked : Text → Option ForkRunOn → Option ForkRunOn × List Text
checked key none = (none, (codes "invalid run_on value for '" ++ (key ++ codes "', skipping")) ∷ [])
checked key (some t) = (some t, [])

unfoldable pub keyed_trigger : Text → Value → Option ForkRunOn × List Text
unfolding checked unknown_trigger
keyed_trigger key val =
    if key == codes "idle"
    then checked key (Option.map (λ s. idle (some s)) (parse_duration_yaml val))
    else if key == codes "context_tokens"
    then checked key (Option.map context_tokens (parse_token_count val))
    else if key == codes "context_used"
    then checked key (Option.map context_used_pct (parse_percent val))
    else if key == codes "context_left"
    then checked key (Option.map context_left (parse_token_count val))
    else (none, unknown_trigger key ∷ [])

abbrev malformed_run_on : Text
malformed_run_on = codes "malformed run_on entry, skipping"

unfoldable pub parse_run_on_entry : Value → Option ForkRunOn × List Text
unfolding plain_trigger keyed_trigger
parse_run_on_entry (string s) = plain_trigger s
parse_run_on_entry (mapping (entry (string key) val end)) = keyed_trigger key val
parse_run_on_entry v = (none, malformed_run_on ∷ [])

unfoldable pub about_fork : Text → Text → Text
about_fork name what = codes "fork '" ++ (name ++ (codes "': " ++ what))

trimmed_name : Option Text → Option Text
trimmed_name none = none
trimmed_name (some s) = if is_empty (trim s) then none else some (trim s)

or_later : Option Text → Option Text → Option Text
or_later none later = later
or_later (some a) later = some a

get_str : Text → Entries → Option Text
get_str k m = elim (get_key k m) [ none ↦ none | some v ↦ as_str v ]

context_warning : Text → Option Text → List Text
unfolding about_fork
context_warning name none = []
context_warning name (some c) =
    about_fork name
      (codes "after 'context' is ignored since v0.5 (dependents inherit the parent session)")
    ∷ []

missing_fork : Text → Option Text → List Text
unfolding about_fork
missing_fork name none = about_fork name (codes "after entry is missing 'fork', ignoring") ∷ []
missing_fork name (some dep) = []

malformed_after : Text → Option Text × List Text
unfolding about_fork
malformed_after name = (none, about_fork name (codes "malformed after value, ignoring") ∷ [])

unfoldable pub parse_after_entry : Value → Text → Option Text × List Text
unfolding trimmed_name or_later get_str context_warning missing_fork malformed_after
parse_after_entry (string s) name =
    if is_empty (trim s) then malformed_after name else (some (trim s), [])
parse_after_entry (mapping m) name =
    let dep = trimmed_name (or_later (get_str (codes "fork") m) (get_str (codes "skill") m)) in
    (dep, context_warning name (get_str (codes "context") m) ++ missing_fork name dep)
parse_after_entry v name = malformed_after name

to_list : Option Text → List Text
to_list none = []
to_list (some a) = a ∷ []

after_entries : Values → Text → List Text × List Text
unfolding to_list
after_entries nil name = ([], [])
after_entries (cons v vs) name =
    let (dep, warned) = parse_after_entry v name in
    let (deps, later) = after_entries vs name in (to_list dep ++ deps, warned ++ later)

-- The loop that drops the fork's own name and duplicates; `out` is what was pushed so far.
unfoldable pub push_deps : Text → List Text → List Text → List Text × List Text
unfolding about_fork
push_deps name [] out = (out, [])
push_deps name (dep ∷ deps) out =
    let is_self = dep == name in
    let is_dup = contains out dep in
    let (result, later) =
      push_deps name deps (if is_self || is_dup then out else out ++ (dep ∷ [])) in
    (
      result,
      if is_self
          then about_fork name (codes "after references itself, ignoring") ∷ later
          else if is_dup
          then about_fork name (codes "duplicate after entry '" ++ (dep ++ codes "', ignoring"))
            ∷ later
          else later,
    )

all_entries : Value → Text → List Text × List Text
unfolding after_entries to_list
all_entries (sequence seq) name = after_entries seq name
all_entries other name = let (dep, warned) = parse_after_entry other name in (to_list dep, warned)

unfoldable pub parse_after : Value → Text → List Text × List Text
unfolding all_entries
parse_after v name =
    let (entries, warned) = all_entries v name in
    let (out, later) = push_deps name entries [] in (out, warned ++ later)

unfoldable pub push_pieces : List Text → List Text → List Text
push_pieces [] out = out
push_pieces (piece ∷ pieces) out =
    let t = trim piece in
    push_pieces pieces (if not (is_empty t) && not (contains out t) then out ++ (t ∷ []) else out)

-- `push_split`
unfoldable pub push_split : Text → List Text → List Text
unfolding push_pieces
push_split s out = push_pieces (split b',' s) out

unfoldable pub push_tags : Values → Text → List Text → List Text × List Text
unfolding about_fork
push_tags nil name out = (out, [])
push_tags (cons (string s) vs) name out = push_tags vs name (push_split s out)
push_tags (cons v vs) name out =
    let (result, later) = push_tags vs name out in
    (result, about_fork name (codes "tags entry is not a string, skipping") ∷ later)

unfoldable pub parse_tags : Value → Text → List Text × List Text
unfolding push_tags about_fork
parse_tags (string s) name = (push_split s [], [])
parse_tags (sequence seq) name = push_tags seq name []
parse_tags null name = ([], [])
parse_tags v name =
    ([], about_fork name (codes "tags must be a string or a list of strings, ignoring") ∷ [])
