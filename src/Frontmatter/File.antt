-- ===== src/Frontmatter/File.antt =====
-- frontmatter.rs, `split_frontmatter` and `parse_fork_file`: a definition file as a whole.
use mathlib.Core.List.{reverse}
use forksan.Prelude.{
  ℕ, Bool, true, false, not, ◌&&◌, ◌||◌, List, [], ◌∷◌, ◌++◌, Option, none, some, Text, codes, trim,
  strip_prefix, is_empty, any, contains, text_eq, nat_eq, ◌==◌, ltb, if◌then◌else◌,
}
use forksan.Yaml.{Value, boolean}
use forksan.Duration.{parse_duration_yaml}
use forksan.Frontmatter.{
  ForkRunOn, ForkParse, ParsedFork, fork, not_fork, invalid, default_run_on, label, is_supported,
}
use forksan.Frontmatter.Parse.{parse_run_on_entry, parse_after, parse_tags, about_fork}

-- The keys of the frontmatter, as serde reads them.
pub record RawFork : Type 0 where
  pub marker : Option Value
  pub description : Option Text
  pub run_on : Option (List Value)
  pub throttle : Option Value
  pub after : Option Value
  pub overlap : Option Value
  pub tags : Option Value
  pub delivery : Option Value
  pub model : Option Value
  pub allowed_tools : Option Value
  pub permission_mode : Option Value
  pub rag : Option Value
  pub triggers : Option Value

is_given {ℓ} : {A : Type ℓ} → Option A → Bool
is_given none = false
is_given (some a) = true

unfoldable pub is_marked : RawFork → Bool
is_marked raw = elim raw.marker [ none ↦ false | some v ↦ elim v [ boolean b ↦ b | _ ↦ false ] ]

-- `Some(Value::Bool(false))`
opted_out : RawFork → Bool
opted_out raw = elim raw.marker [ none ↦ false | some v ↦ elim v [ boolean b ↦ not b | _ ↦ false ] ]

unfoldable pub has_fork_like_keys : RawFork → Bool
unfolding is_given
has_fork_like_keys raw =
    is_given raw.description
    || is_given raw.run_on
    || is_given raw.throttle
    || is_given raw.after
    || is_given raw.overlap
    || is_given raw.tags
    || is_given raw.delivery
    || is_given raw.model
    || is_given raw.allowed_tools
    || is_given raw.permission_mode

-- `s.strip_prefix('\r').unwrap_or(s)`
drop_return : Text → Text
drop_return [] = []
drop_return (c ∷ s) = if c == 13 then s else c ∷ s

or_else {ℓ} : {A : Type ℓ} → Option A → Option A → Option A
or_else none later = later
or_else (some a) later = some a

-- What a fence at the head of the text closes; `front` is what stands before it, reversed.
close_fence : Text → Option Text → Option (Text × Text)
unfolding drop_return
close_fence front none = none
close_fence front (some tail) =
    let behind = drop_return tail in
    if is_empty behind
    then some (reverse (drop_return front), [])
    else elim (strip_prefix (codes "\n") behind) [
      | none ↦ none
      | some body ↦ some (reverse (drop_return front), body)
    ]

-- The search loop. No fence starts within another, so the next position is tried after each one.
search_fence : Text → Text → Option (Text × Text)
unfolding close_fence or_else
search_fence front [] = close_fence front (strip_prefix (codes "\n---") [])
search_fence front (c ∷ s) =
    or_else (close_fence front (strip_prefix (codes "\n---") (c ∷ s))) (search_fence (c ∷ front) s)

unfoldable pub split_frontmatter : Text → Option Text × Text
unfolding search_fence or_else
split_frontmatter content = elim (strip_prefix (codes "---") content) [
  | none ↦ (none, content)
  | some rest ↦ elim (or_else (strip_prefix (codes "\r\n") rest) (strip_prefix (codes "\n") rest)) [
    | none ↦ (none, content)
    | some text ↦ elim (search_fence [] text) [
      | none ↦ (none, content)
      | some (front, body) ↦ (some front, body)
    ]
  ]
]

warn_if : Bool → Text → List Text
warn_if c w = if c then w ∷ [] else []

unfoldable pub throttle_of : Text → Option Value → Option ℕ × List Text
unfolding about_fork
throttle_of name none = (none, [])
throttle_of name (some v) = elim (parse_duration_yaml v) [
  | none ↦ (none, about_fork name (codes "invalid throttle value, ignoring") ∷ [])
  | some s ↦
      if ltb 0 s
      then (some s, [])
      else (none, about_fork name (codes "invalid throttle value, ignoring") ∷ [])
]

unfoldable pub run_on_entries : List Value → List ForkRunOn × List Text
run_on_entries [] = ([], [])
run_on_entries (v ∷ vs) =
    let (trigger, warned) = parse_run_on_entry v in
    let (triggers, later) = run_on_entries vs in
    (elim trigger [ none ↦ triggers | some t ↦ t ∷ triggers ], warned ++ later)

unfoldable pub or_default : Text → List ForkRunOn → List Text → List ForkRunOn × List Text
unfolding about_fork
or_default name [] warned = (
  default_run_on,
  warned ++ (about_fork name (codes "run_on has no valid triggers; using the defaults") ∷ []),
)
or_default name (t ∷ ts) warned = (t ∷ ts, warned)

unfoldable pub run_on_of : Text → Option (List Value) → List ForkRunOn × List Text
unfolding run_on_entries or_default
run_on_of name none = (default_run_on, [])
run_on_of name (some entries) =
    let (triggers, warned) = run_on_entries entries in or_default name triggers warned

-- One warning for each label of a trigger that is not supported.
unsupported : Text → List ForkRunOn → List Text → List Text
unfolding about_fork
unsupported name [] seen = []
unsupported name (t ∷ ts) seen =
    let is_new = not (is_supported t) && not (contains seen (label t)) in
    let later = unsupported name ts (if is_new then seen ++ (label t ∷ []) else seen) in
    if is_new
    then about_fork name
        (codes "run_on '" ++ (label t ++ codes "' is not supported since v0.5, ignoring"))
      ∷ later
    else later

overlap_of : Text → Option Value → Bool × List Text
unfolding about_fork
overlap_of name none = (false, [])
overlap_of name (some (boolean b)) = (b, [])
overlap_of name (some v) =
    (false, about_fork name (codes "overlap must be true or false; using false") ∷ [])

unfoldable pub list_of :
    (Value → Text → List Text × List Text) → Text → Option Value → List Text × List Text
list_of parse name none = ([], [])
list_of parse name (some v) = parse v name

described : Option Text → Option Text
described none = none
described (some d) = if is_empty (trim d) then none else some d

-- The definition that the keys of a marked file give.
unfoldable pub define_fork : Text → RawFork → Text → ParsedFork
unfolding is_given warn_if throttle_of run_on_of unsupported overlap_of list_of described about_fork
define_fork name raw body =
    let (throttle_secs, throttle_warned) = throttle_of name raw.throttle in
    let (run_on, run_on_warned) = run_on_of name raw.run_on in
    let (after, after_warned) = list_of parse_after name raw.after in
    let (overlap, overlap_warned) = overlap_of name raw.overlap in
    let (tags, tags_warned) = list_of parse_tags name raw.tags in
    record {
      def = record {
        description = described raw.description;
        run_on = run_on;
        throttle_secs = throttle_secs;
        after = after;
        overlap = overlap;
        tags = tags;
      };
      body = body;
      warnings =
          warn_if (is_given raw.rag || is_given raw.triggers)
            (about_fork name (codes "RAG keys are not part of the fork format, ignoring"))
          ++ (warn_if (is_given raw.delivery || is_given raw.model) (
                about_fork name (
                  codes
                    "v0.5 ignores 'delivery' and 'model' — delivery is native and the fork inherits the session's model"))
              ++ (warn_if (is_given raw.allowed_tools || is_given raw.permission_mode) (
                    about_fork name (
                      codes
                        "v0.5 ignores 'allowed_tools' and 'permission_mode' — a fork inherits the session's permissions"))
                  ++ (throttle_warned
                      ++ (run_on_warned
                          ++ (unsupported name run_on []
                              ++ (warn_if (not (any is_supported run_on)) (
                                    about_fork name (
                                      codes
                                        "no supported run_on moments (idle / context_*); it will never fire"))
                                  ++ (after_warned ++ (overlap_warned ++ tags_warned))))))));
    }

unfoldable pub parse_raw : Text → Text → Option RawFork → ForkParse
unfolding opted_out
parse_raw name body none = invalid
parse_raw name body (some raw) =
    if is_marked raw
    then fork (define_fork name raw body)
    else not_fork (not (opted_out raw) && has_fork_like_keys raw)

unfoldable pub parse_front : (Text → Option RawFork) → Text → Text → Option Text → ForkParse
parse_front from_str name body none = not_fork false
parse_front from_str name body (some yaml) = parse_raw name body (from_str yaml)

-- `from_str` is `serde_yaml::from_str`.
unfoldable pub parse_fork_file : (Text → Option RawFork) → Text → Text → ForkParse
unfolding parse_front
parse_fork_file from_str name content =
    let (front, body) = split_frontmatter content in parse_front from_str name body front
