-- ===== src/Planner/Latches.antt =====
-- A wake closes the latches of its forks, and what is selected has an open one.
use forksan.Prelude.{
  In-filter_map, ℕ, suc, ◌≡◌, refl, ap, ◌∙◌, sym, subst, Bool, true, false, List, [], ◌∷◌, Option,
  none, some, Text, text_eq, In, inl, inr, arith, if◌then◌else◌, ==_refl, ◌==◌,
}
use forksan.Schedule.{Graph, resolve_deps}
use forksan.Store.{
  Store, SessionRow, RosterEntry, roster, is_latched, queue_fork, touch_fork_ran, record_issued_run,
  insert_pending_dep,
}
use forksan.Store.Latch.{try_latch_fire_lem}
use forksan.Frontmatter.{ForkDef, ForkRunOn}
use forksan.Frontmatter.File.{parse_fork_file}
use forksan.Moments.{ForkMoment, match_moments}
use forksan.Tags.{tags_allowed}
use forksan.Config.{Config}
use forksan.Discovery.{ForkEntry}
use forksan.Planner.{SelectedFork, Files, Daemon, note_wake_issued, selected_fork}
use forksan.Planner.Select.{
  queue_all, as_fork, select_forks, select_entry, select_def, select_matched, refresh_roster,
  latch_taken, visible_forks,
}
use forksan.Planner.Issue.{issue, issue_one, add_issued, Issued, stamp, latch, build_wake, preds_of}

module _ (sid name label : Text) where
  latch-is_latched :
      (session : SessionRow) (t : ℕ) (sel : SelectedFork) (key : Option Text) (s : Store)
      → is_latched sid name label s ≡ true
      → is_latched sid name label (latch session t sel key s) ≡ true
  unfolding latch
  latch-is_latched session t sel none s h = h
  latch-is_latched session t sel (some key) s h =
      rw ((try_latch_fire_lem session.session_id sel.name key t s).1 sid name label)
        (ground (arith, h))

  stamp-is_latched :
      (session : SessionRow) (t : ℕ) (sel : SelectedFork) (s : Store)
      → is_latched sid name label s ≡ true
      → is_latched sid name label (stamp session t sel s) ≡ true
  unfolding stamp is_latched touch_fork_ran record_issued_run
  stamp-is_latched session t sel s h = latch-is_latched session t sel sel.latch_key _ h

  issue_one-is_latched :
      (session : SessionRow) (t : ℕ) (sel : SelectedFork) (preds : List Text) (s : Store)
      → is_latched sid name label (stamp session t sel s) ≡ true
      → is_latched sid name label (issue_one session t sel preds s) ≡ true
  unfolding issue_one is_latched insert_pending_dep
  issue_one-is_latched session t sel [] s h = h
  issue_one-is_latched session t sel (p ∷ preds) s h = h

store-add_issued :
    (sel : SelectedFork) (preds : List Text) (rest : Issued)
    → (add_issued sel preds rest).store ≡ rest.store
unfolding add_issued
store-add_issued sel [] rest = refl
store-add_issued sel (p ∷ preds) rest = refl

module _ (sid name label : Text) where
  -- What is latched stays latched.
  issue-is_latched :
      (session : SessionRow) (t : ℕ) (selected : List SelectedFork) (deps : Graph) (i : ℕ)
      (sels : List SelectedFork) (s : Store)
      → is_latched sid name label s ≡ true
      → is_latched sid name label (issue session t selected deps i sels s).store ≡ true
  unfolding issue
  issue-is_latched session t selected deps i [] s h = h
  issue-is_latched session t selected deps i (sel ∷ sels) s h =
      let preds = preds_of selected deps i in
      ap (is_latched sid name label) (store-add_issued sel preds _)
      ∙ issue-is_latched session t selected deps (suc i) sels (issue_one session t sel preds s) (
          issue_one-is_latched sid name label session t sel preds s
            (stamp-is_latched sid name label session t sel s h))

latch-latches :
    (session : SessionRow) (t : ℕ) (sel : SelectedFork) (o : Option Text) (key : Text) (s : Store)
    → o ≡ some key
    → is_latched session.session_id sel.name key (latch session t sel o s) ≡ true
unfolding latch
latch-latches session t sel none key s e = cc
latch-latches session t sel (some k) key s e =
    rw
      (
        (try_latch_fire_lem session.session_id sel.name k t s).1 session.session_id sel.name key,
        ==_refl session.session_id,
        ==_refl sel.name,
        same_key e,
      )
      refl
  where
    same_key : some k ≡ some key → (k == key) ≡ true
    same_key q = ap (λ o. elim o [ none ↦ false | some x ↦ x == key ]) q ∙ ==_refl key

stamp-latches :
    (session : SessionRow) (t : ℕ) (sel : SelectedFork) (key : Text) (s : Store)
    → sel.latch_key ≡ some key
    → is_latched session.session_id sel.name key (stamp session t sel s) ≡ true
unfolding stamp
stamp-latches session t sel key s e = latch-latches session t sel sel.latch_key key _ e

issue-latches :
    (session : SessionRow) (t : ℕ) (selected : List SelectedFork) (deps : Graph) (i : ℕ)
    (sels : List SelectedFork) (s : Store) (sel : SelectedFork) (key : Text)
    → In sel sels
    → sel.latch_key ≡ some key
    → is_latched session.session_id sel.name key (issue session t selected deps i sels s).store
      ≡ true
unfolding issue
issue-latches session t selected deps i [] s sel key m e = absurd m
issue-latches session t selected deps i (x ∷ sels) s sel key (inl q) e =
    let preds = preds_of selected deps i in
    ap (is_latched session.session_id sel.name key) (store-add_issued x preds _)
    ∙ issue-is_latched session.session_id sel.name key session t selected deps (suc i) sels
        (issue_one session t x preds s)
        (issue_one-is_latched session.session_id sel.name key session t x preds s (
          subst (λ y. is_latched session.session_id sel.name key (stamp session t y s) ≡ true) q
            (stamp-latches session t sel key s e)))
issue-latches session t selected deps i (x ∷ sels) s sel key (inr m) e =
    let preds = preds_of selected deps i in
    ap (is_latched session.session_id sel.name key) (store-add_issued x preds _)
    ∙ issue-latches session t selected deps (suc i) sels (issue_one session t x preds s) sel key m e

-- A chain that gives a value has one at each step.
pub chain-some :
    {A B : Type 0} (o : Option A) (f : A → Option B) (b : B)
    → elim o [ none ↦ none | some a ↦ f a ] ≡ some b
    → (a : A) × (o ≡ some a) × (f a ≡ some b)
chain-some none f b h = cc
chain-some (some a) f b h = (a, refl, h)

pub guard-some :
    {B : Type 0} (c : Bool) (o : Option B) (b : B) → (if c then o else none) ≡ some b → o ≡ some b
guard-some true o b h = h
guard-some false o b h = cc

-- A fork whose latch is taken is not selected.
select_matched-open :
    (session : SessionRow) (cfg : Config) (t : ℕ) (s : Store) (entry : RosterEntry) (def : ForkDef)
    (trigger : ForkRunOn) (sel : SelectedFork)
    → select_matched session cfg t s entry def trigger ≡ some sel
    → latch_taken session.session_id sel.name sel.latch_key s ≡ false
unfolding select_matched
select_matched-open session cfg t s entry def trigger sel h = ground arith

select_def-open :
    (session : SessionRow) (cfg : Config) (moments : List ForkMoment) (t : ℕ) (s : Store)
    (entry : RosterEntry) (def : ForkDef) (sel : SelectedFork)
    → select_def session cfg moments t s entry def ≡ some sel
    → latch_taken session.session_id sel.name sel.latch_key s ≡ false
unfolding select_def
select_def-open session cfg moments t s entry def sel h =
    let (trigger, found, e) =
      chain-some (match_moments def moments cfg.default_idle_deadline_secs) _ sel
        (guard-some (tags_allowed def.tags _ _) _ sel h) in
    select_matched-open session cfg t s entry def trigger sel e

select_entry-open :
    (files : Files) (session : SessionRow) (cfg : Config) (moments : List ForkMoment) (t : ℕ)
    (s : Store) (entry : RosterEntry) (sel : SelectedFork)
    → select_entry files session cfg moments t s entry ≡ some sel
    → latch_taken session.session_id sel.name sel.latch_key s ≡ false
unfolding select_entry
select_entry-open files session cfg moments t s entry sel h =
    let (content, found, e) = chain-some (files.disk.read_to_string entry.fork_path) _ sel h in
    let (def, parsed, q) =
      chain-some (as_fork (parse_fork_file files.from_str entry.fork_name content)) _ sel e in
    select_def-open session cfg moments t s entry def sel q

queue_all-is_latched :
    (sid name label : Text) (session : Text) (t : ℕ) (es : List ForkEntry) (s : Store)
    → is_latched sid name label (queue_all session t es s) ≡ is_latched sid name label s
unfolding queue_all is_latched queue_fork
queue_all-is_latched sid name label session t [] s = refl
queue_all-is_latched sid name label session t (e ∷ es) s =
    queue_all-is_latched sid name label session t es _

-- What is selected has a latch that is still open.
pub select_forks-open :
    (files : Files) (session : SessionRow) (cfg : Config) (moments : List ForkMoment)
    (t_roster t : ℕ) (s : Store) (sel : SelectedFork) (key : Text)
    → In sel (select_forks files session cfg moments t_roster t s).1
    → sel.latch_key ≡ some key
    → is_latched session.session_id sel.name key s ≡ false
unfolding select_forks refresh_roster latch_taken
select_forks-open files session cfg moments t_roster t s sel key m e =
    let s' = queue_all session.session_id t_roster (visible_forks files session.cwd) s in
    let (entry, k, q) =
      (In-filter_map (select_entry files session cfg moments t s') sel
          (roster session.session_id s')).0
        m in
    sym (
      queue_all-is_latched session.session_id sel.name key session.session_id t_roster
        (visible_forks files session.cwd) s)
    ∙ (sym (ap (λ o. latch_taken session.session_id sel.name o s') e)
        ∙ select_entry-open files session cfg moments t s' entry sel q)

pub build_wake-latches :
    (session : SessionRow) (selected : List SelectedFork) (t noted_at : ℕ) (d : Daemon)
    (sel : SelectedFork) (key : Text)
    → In sel selected
    → sel.latch_key ≡ some key
    → is_latched session.session_id sel.name key (build_wake session selected t noted_at d).0.store
      ≡ true
unfolding build_wake note_wake_issued
build_wake-latches session [] t noted_at d sel key m e = absurd m
build_wake-latches session (x ∷ xs) t noted_at d sel key m e =
    issue-latches session t (x ∷ xs) (resolve_deps (x ∷ xs)) 0 (x ∷ xs) d.store sel key m e
