-- ===== src/Planner/Once.antt =====
-- A fork that was woken for a trigger is not selected for it again.
use forksan.Prelude.{
  In-filter_map, ℕ, ◌≡◌, ◌≢◌, subst, ap, ◌∙◌, sym, true, List, some, Text, In, inl, inr, arith, All,
}
use forksan.Store.{Store, SessionRow, RosterEntry, roster, is_latched}
use forksan.Store.Keys.{Statement, run}
use forksan.Store.Keys.Fires.{KeepsOpen, run-is_latched}
use forksan.Frontmatter.{ForkDef, ForkRunOn, label, is_supported}
use forksan.Frontmatter.File.{parse_fork_file}
use forksan.Moments.{ForkMoment, match_moments}
use forksan.Moments.Match.{match_moments_sound, hits-is_supported}
use forksan.Tags.{tags_allowed}
use forksan.Config.{Config}
use forksan.Planner.{SelectedFork, Files, Daemon, latch_key_for}
use forksan.Planner.Select.{
  queue_all, as_fork, select_forks, select_entry, select_def, select_matched, refresh_roster,
  visible_forks,
}
use forksan.Planner.Issue.{build_wake}
use forksan.Planner.Latches.{chain-some, guard-some, select_forks-open, build_wake-latches}
use forksan.Planner.Keys.{IsIdle, pause_key, latch_key_for-cases}

-- The fork was selected for a supported trigger, whose label and latch key it carries.
pub record IsSelected (session : SessionRow) (sel : SelectedFork) : Type 0 where
  pub trigger : ForkRunOn
  pub supported : is_supported trigger ≡ true
  pub labelled : sel.trigger ≡ label trigger
  pub keyed : sel.latch_key ≡ latch_key_for trigger session.pause_epoch

select_matched-fields :
    (session : SessionRow) (cfg : Config) (t : ℕ) (s : Store) (entry : RosterEntry) (def : ForkDef)
    (trigger : ForkRunOn) (sel : SelectedFork)
    → select_matched session cfg t s entry def trigger ≡ some sel
    → (sel.trigger ≡ label trigger) × (sel.latch_key ≡ latch_key_for trigger session.pause_epoch)
unfolding select_matched
select_matched-fields session cfg t s entry def trigger sel h = (ground arith, ground arith)

select_def-IsSelected :
    (session : SessionRow) (cfg : Config) (moments : List ForkMoment) (t : ℕ) (s : Store)
    (entry : RosterEntry) (def : ForkDef) (sel : SelectedFork)
    → select_def session cfg moments t s entry def ≡ some sel
    → IsSelected session sel
unfolding select_def
select_def-IsSelected session cfg moments t s entry def sel h =
    let (trigger, found, e) =
      chain-some (match_moments def moments cfg.default_idle_deadline_secs) _ sel
        (guard-some (tags_allowed def.tags _ _) _ sel h) in
    let (i, (moment, n, hit)) =
      match_moments_sound def moments cfg.default_idle_deadline_secs trigger found in
    let (labelled, keyed) = select_matched-fields session cfg t s entry def trigger sel e in
    record {
      trigger = trigger;
      supported = hits-is_supported cfg.default_idle_deadline_secs moment trigger hit;
      labelled = labelled;
      keyed = keyed;
    }

pub select_forks-IsSelected :
    (files : Files) (session : SessionRow) (cfg : Config) (moments : List ForkMoment)
    (t_roster t : ℕ) (s : Store) (sel : SelectedFork)
    → In sel (select_forks files session cfg moments t_roster t s).1
    → IsSelected session sel
unfolding select_forks refresh_roster select_entry
select_forks-IsSelected files session cfg moments t_roster t s sel m =
    let s' = queue_all session.session_id t_roster (visible_forks files session.cwd) s in
    let (entry, k, q) =
      (In-filter_map (select_entry files session cfg moments t s') sel
          (roster session.session_id s')).0
        m in
    let (content, read, e) = chain-some (files.disk.read_to_string entry.fork_path) _ sel q in
    let (def, parsed, p) =
      chain-some (as_fork (parse_fork_file files.from_str entry.fork_name content)) _ sel e in
    select_def-IsSelected session cfg moments t s' entry def sel p

-- What is selected has a latch key.
pub IsSelected-latch_key :
    (session : SessionRow) (sel : SelectedFork)
    → IsSelected session sel
    → (key : Text) × (sel.latch_key ≡ some key)
IsSelected-latch_key session sel k = elim (latch_key_for-cases k.trigger k.supported) [
  | inl (idle, e) ↦ (_, k.keyed ∙ e session.pause_epoch)
  | inr (threshold, e, apart) ↦ (_, k.keyed ∙ e session.pause_epoch)
]

-- What is due is selected, and a wake is issued for it.
abbrev pub select_and_wake :
    Files → SessionRow → Config → List ForkMoment → ℕ → ℕ → ℕ → ℕ → Daemon → Daemon
select_and_wake files session cfg moments t_roster t stamped_at noted_at d =
    let (s, selected) = select_forks files session cfg moments t_roster t d.store in
    (build_wake session selected stamped_at noted_at (record d { store = s })).0

-- Two selected forks that do not share a latch key.
apart :
    (session session' : SessionRow) (sel again : SelectedFork)
    → IsSelected session sel
    → IsSelected session' again
    → ((key : Text) → sel.latch_key ≡ some key → again.latch_key ≢ some key)
    → (again.trigger ≡ sel.trigger → IsIdle sel.trigger)
      × (IsIdle again.trigger → IsIdle sel.trigger → session'.pause_epoch ≢ session.pause_epoch)
apart session session' sel again k l differ = elim (latch_key_for-cases k.trigger k.supported) [
  | inl (one, e) ↦ elim (latch_key_for-cases l.trigger l.supported) [
    | inl (other, e') ↦ (
      λ same. own one,
      λ i j same.
          differ _ (k.keyed ∙ e session.pause_epoch)
            (l.keyed ∙ (e' session'.pause_epoch ∙ ap (λ p. some (pause_key p)) same)),
    )
    | inr (n, e', f') ↦ (λ same. own one, λ i j same. n (subst IsIdle l.labelled i))
  ]
  | inr (n, e, f) ↦ (
    λ same. elim (latch_key_for-cases l.trigger l.supported) [
      | inl (other, e') ↦ absurd (n (subst IsIdle (sym l.labelled ∙ (same ∙ k.labelled)) other))
      | inr (n', e', f') ↦ absurd (
          differ _ (k.keyed ∙ e session.pause_epoch)
            (l.keyed ∙ (e' session'.pause_epoch ∙ ap some (sym l.labelled ∙ (same ∙ k.labelled)))))
    ],
    λ i j same. n (subst IsIdle k.labelled j),
  )
]
  where
    own : IsIdle (label k.trigger) → IsIdle sel.trigger
    own i = subst IsIdle (sym k.labelled) i

-- After a wake was issued for a selection of a session, whatever statements the store runs except to
-- close that session, and whatever the files, the row of the session, the configuration, the moments
-- and the clocks are by then: a fork of that selection, by its name, is not selected again for the same
-- trigger, unless that is an idle trigger, and after an idle trigger not for any idle trigger, unless
-- the pause epoch has changed.
pub select_forks-build_wake :
    (files files' : Files) (session session' : SessionRow) (cfg cfg' : Config)
    (moments moments' : List ForkMoment) (t_roster t stamped_at noted_at t_roster' t' : ℕ)
    (d : Daemon) (between : List Statement) (sel again : SelectedFork)
    → session'.session_id ≡ session.session_id
    → All (KeepsOpen session.session_id) between
    → In sel (select_forks files session cfg moments t_roster t d.store).1
    → In again
        (select_forks files' session' cfg' moments' t_roster' t' (
          run between
            (select_and_wake files session cfg moments t_roster t stamped_at noted_at d).store)).1
    → again.name ≡ sel.name
    → (again.trigger ≡ sel.trigger → IsIdle sel.trigger)
      × (IsIdle again.trigger → IsIdle sel.trigger → session'.pause_epoch ≢ session.pause_epoch)
select_forks-build_wake files files' session session' cfg cfg' moments moments' t_roster t
      stamped_at noted_at t_roster' t' d between sel again own stays m n same =
    let (s, selected) = select_forks files session cfg moments t_roster t d.store in
    let later =
      run between
        (select_and_wake files session cfg moments t_roster t stamped_at noted_at d).store in
    apart session session' sel again
      (select_forks-IsSelected files session cfg moments t_roster t d.store sel m)
      (select_forks-IsSelected files' session' cfg' moments' t_roster' t' later again n)
      (λ key e k.
        let closed = run-is_latched session.session_id sel.name key between _ stays (
          build_wake-latches session selected stamped_at noted_at (record d { store = s }) sel key m
            e) in
        let open_still =
          select_forks-open files' session' cfg' moments' t_roster' t' later again key n k in
        cc (
          ap (λ x. is_latched x again.name key later) own,
          ap (λ x. is_latched session.session_id x key later) same,
          closed,
          open_still,
        ))
