-- ===== src/Frontmatter/Checked.antt =====
-- What holds of every definition that parses.
use forksan.Prelude.{
  ℕ, ◌≡◌, ◌≢◌, ◌↔◌, ◌≤◌, inl, inr, refl, ap, ◌∙◌, sym, subst, true, false, List, [], ◌∷◌, Option,
  none, some, Text, text_eq, In, arith, Bool-cases, Option-cases,
}
use forksan.Yaml.{Value}
use forksan.Frontmatter.{context_used_pct, ForkRunOn, ForkDef, ParsedFork, fork}
use forksan.Frontmatter.Parse.{parse_run_on_entry, parse_after, parse_tags}
use forksan.Frontmatter.File.{
  parse_raw, run_on_entries, or_default, list_of, RawFork, is_marked, define_fork, parse_front,
  parse_fork_file, split_frontmatter, throttle_of, run_on_of,
}
use forksan.Frontmatter.Values.{
  IsClean, parse_after-IsClean, parse_tags-IsClean, parse_run_on_entry-percentage,
}

-- What parsing checks of a definition with that name.
pub record IsChecked (name : Text) (def : ForkDef) : Type 0 where
  pub run_on : def.run_on ≢ []
  pub throttle : def.throttle_secs ≢ some 0
  pub percentages : (p : ℕ) → In (context_used_pct p) def.run_on → (1 ≤ p) × (p ≤ 100)
  pub after : IsClean name def.after
  pub tags : IsClean [] def.tags

run_on_entries-percentage :
    (vs : List Value) (p : ℕ) → In (context_used_pct p) (run_on_entries vs).0 → (1 ≤ p) × (p ≤ 100)
unfolding run_on_entries
run_on_entries-percentage [] p m = absurd m
run_on_entries-percentage (v ∷ vs) p m = elim (Option-cases (parse_run_on_entry v).0) [
  | inl skipped ↦ run_on_entries-percentage vs p (
      subst
        (λ o.
          In (context_used_pct p)
            (elim o [ none ↦ (run_on_entries vs).0 | some t ↦ t ∷ (run_on_entries vs).0 ]))
        skipped m)
  | inr (t, e) ↦ found t e (run_on_entries-percentage vs p) (
      subst
        (λ o.
          In (context_used_pct p)
            (elim o [ none ↦ (run_on_entries vs).0 | some t ↦ t ∷ (run_on_entries vs).0 ]))
        e m)
]
  where
    found :
        (t : ForkRunOn)
        → (parse_run_on_entry v).0 ≡ some t
        → (In (context_used_pct p) (run_on_entries vs).0 → (1 ≤ p) × (p ≤ 100))
        → In (context_used_pct p) (t ∷ (run_on_entries vs).0)
        → (1 ≤ p) × (p ≤ 100)
    found t e later (inl q) = parse_run_on_entry-percentage v p (e ∙ ap some (sym q))
    found t e later (inr k) = later k

or_default-run_on :
    (name : Text) (ts : List ForkRunOn) (warned : List Text)
    → ((p : ℕ) → In (context_used_pct p) ts → (1 ≤ p) × (p ≤ 100))
    → ((or_default name ts warned).0 ≢ [])
      × ((p : ℕ) → In (context_used_pct p) (or_default name ts warned).0 → (1 ≤ p) × (p ≤ 100))
unfolding or_default
or_default-run_on name [] warned h = (λ e. cc, λ p m. elim m [ inl e ↦ cc | inr f ↦ absurd f ])
or_default-run_on name (t ∷ ts) warned h = (λ e. cc, h)

run_on_of-run_on :
    (name : Text) (o : Option (List Value))
    → ((run_on_of name o).0 ≢ [])
      × ((p : ℕ) → In (context_used_pct p) (run_on_of name o).0 → (1 ≤ p) × (p ≤ 100))
unfolding run_on_of
run_on_of-run_on name none = (λ e. cc, λ p m. elim m [ inl e ↦ cc | inr f ↦ absurd f ])
run_on_of-run_on name (some vs) = or_default-run_on name _ _ (run_on_entries-percentage vs)

throttle_of-positive : (name : Text) (o : Option Value) → (throttle_of name o).0 ≢ some 0
unfolding throttle_of
throttle_of-positive name o h = ground arith

list_of-IsClean :
    (parse : Value → Text → List Text × List Text) (own name : Text) (o : Option Value)
    → ((v : Value) → IsClean own (parse v name).0)
    → IsClean own (list_of parse name o).0
unfolding list_of
list_of-IsClean parse own name none h = (tt, λ m. m)
list_of-IsClean parse own name (some v) h = h v

define_fork-IsChecked :
    (name : Text) (raw : RawFork) (body : Text) → IsChecked name (define_fork name raw body).def
unfolding define_fork
define_fork-IsChecked name raw body = record {
  run_on = (run_on_of-run_on name raw.run_on).0;
  throttle = throttle_of-positive name raw.throttle;
  percentages = (run_on_of-run_on name raw.run_on).1;
  after = list_of-IsClean parse_after name name raw.after (λ v. parse_after-IsClean v name);
  tags = list_of-IsClean parse_tags [] name raw.tags (λ v. parse_tags-IsClean v name);
}

parse_raw-fork :
    (name body : Text) (o : Option RawFork) (p : ParsedFork)
    → parse_raw name body o ≡ fork p
    → (raw : RawFork) × (o ≡ some raw) × (is_marked raw ≡ true) × (p ≡ define_fork name raw body)
unfolding parse_raw
parse_raw-fork name body none p h = cc
parse_raw-fork name body (some raw) p h = elim (Bool-cases (is_marked raw)) [
  | inl marked ↦ (raw, refl, marked, same marked h)
  | inr unmarked ↦ cc (other unmarked h)
]
  where
    same :
        is_marked raw ≡ true
        → parse_raw name body (some raw) ≡ fork p
        → p ≡ define_fork name raw body
    same m q = ground arith

    other : is_marked raw ≡ false → parse_raw name body (some raw) ≡ fork p → true ≡ false
    other m q = ground arith

module _ (from_str : Text → Option RawFork) (name content : Text) where
  -- The file has frontmatter that is valid and marked with `fork: true`.
  abbrev pub IsMarked : RawFork → Type 0
  IsMarked raw =
      (yaml : Text) × ((split_frontmatter content).0 ≡ some yaml)
      × (from_str yaml ≡ some raw)
      × (is_marked raw ≡ true)

  parse_front-fork :
      (front : Option Text) (body : Text) (p : ParsedFork)
      → parse_front from_str name body front ≡ fork p
      → (yaml : Text) × (raw : RawFork) × (front ≡ some yaml)
        × (from_str yaml ≡ some raw)
        × (is_marked raw ≡ true)
        × (p ≡ define_fork name raw body)
  unfolding parse_front
  parse_front-fork none body p h = cc
  parse_front-fork (some yaml) body p h =
      let (raw, valid, marked, e) = parse_raw-fork name body (from_str yaml) p h in
      (yaml, raw, refl, valid, marked, e)

  -- Whatever the YAML library makes of the frontmatter, a file is a fork exactly when it is marked. Then
  -- it has a trigger, its throttle is not zero, its percentages are between 1 and 100, `after` names
  -- no fork twice and never the fork itself, and the tags are distinct and not empty.
  pub parse_fork_file_lem :
      ((p : ParsedFork) → parse_fork_file from_str name content ≡ fork p → IsChecked name p.def)
      × (((p : ParsedFork) × (parse_fork_file from_str name content ≡ fork p))
          ↔ ((raw : RawFork) × IsMarked raw))
  unfolding parse_fork_file parse_raw define_fork
  parse_fork_file_lem =
      let front = (split_frontmatter content).0 in
      let body = (split_frontmatter content).1 in
      (
        λ p h.
            let (yaml, raw, at, valid, marked, e) = parse_front-fork front body p h in
            subst (λ q. IsChecked name (ParsedFork.def q)) (sym e)
              (define_fork-IsChecked name raw body),
        (
          λ (p, h).
              let (yaml, raw, at, valid, marked, e) = parse_front-fork front body p h in
              (raw, (yaml, at, valid, marked)),
          λ (raw, (yaml, at, valid, marked)). (
            define_fork name raw body,
            ap (parse_front from_str name body) at
                ∙ (unfold parse_front in rw (valid, marked) refl),
          ),
        ),
      )
