-- ===== src/Store/Close.antt =====
-- Closing a session clears what is kept for it, and nothing of any other session.
use mathlib.Core.Option
use forksan.Prelude.{
  ℕ, ◌≡◌, ◌≢◌, ap, ◌∙◌, sym, Bool, true, false, ◌&&◌, [], Option, Text, text_eq, ◌==◌, ==_sound,
  ne→==, arith, sort_by,
}
use forksan.Sql.Laws.{
  count_where-any, find-update_where, any-delete_where, any-delete_where_other, filter-delete_where,
  filter-delete_where_other,
}
use forksan.Store.{
  Store, is_session, get_session, close_session, roster, is_latched, is_fire, is_fork_spawn,
  is_notified, fork_completed_since, is_completion, list_pending_deps, row_to_session,
}

-- What the store keeps for a session, as the daemon can ask for it.
pub record IsCleared (sid : Text) (s : Store) : Type 0 where
  pub roster_empty : roster sid s ≡ []
  pub latches_open : (name label : Text) → is_latched sid name label s ≡ false
  pub spawns_unknown : (tool task : Option Text) → is_fork_spawn sid tool task s ≡ false
  pub completions_unknown :
      (name : Text) (since : ℕ) → fork_completed_since sid name since s ≡ false
  pub pending_empty : list_pending_deps sid s ≡ []

pub record SameSession (sid : Text) (s t : Store) : Type 0 where
  pub row : get_session sid s ≡ get_session sid t
  pub roster_same : roster sid s ≡ roster sid t
  pub latches_same : (name label : Text) → is_latched sid name label s ≡ is_latched sid name label t
  pub spawns_same :
      (tool task : Option Text) → is_fork_spawn sid tool task s ≡ is_fork_spawn sid tool task t
  pub completions_same :
      (name : Text) (since : ℕ)
      → fork_completed_since sid name since s ≡ fork_completed_since sid name since t
  pub pending_same : list_pending_deps sid s ≡ list_pending_deps sid t

first_of_and : (a b : Bool) → (a && b) ≡ true → a ≡ true
first_of_and a b h = ground arith

pub close_session-IsCleared : (sid : Text) (s : Store) → IsCleared sid (close_session sid s)
unfolding close_session roster is_latched is_fork_spawn fork_completed_since list_pending_deps
    sort_by
close_session-IsCleared sid s = record {
  roster_empty = rw (
      filter-delete_where (λ r. r.session_id == sid) (λ r. r.session_id == sid) s.fork_roster
        (λ r h. h));
  latches_open = λ name label.
      count_where-any (is_fire sid name label) _
      ∙ any-delete_where (λ r. r.session_id == sid) (is_fire sid name label) s.fork_fires
          (λ r h. first_of_and _ _ h);
  spawns_unknown = λ tool task.
      count_where-any (is_notified sid tool task) _
      ∙ any-delete_where (λ r. r.session_id == sid) (is_notified sid tool task) s.fork_spawns
          (λ r h. first_of_and _ _ h);
  completions_unknown = λ name since.
      count_where-any (is_completion sid name since) _
      ∙ any-delete_where (λ r. r.session_id == sid) (is_completion sid name since) s.fork_spawns
          (λ r h. first_of_and _ _ h);
  pending_empty = rw (
      filter-delete_where (λ r. r.session_id == sid) (λ r. r.session_id == sid) s.pending_deps
        (λ r h. h));
}

-- Nothing that can be asked about another session changes.
pub close_session-SameSession :
    (sid u : Text) (s : Store) → u ≢ sid → SameSession u (close_session sid s) s
unfolding close_session get_session roster is_latched is_fork_spawn fork_completed_since
    list_pending_deps
close_session-SameSession sid u s n = record {
  row = ap (Option.map row_to_session) (
      find-update_where (is_session sid) _ (is_session u) s.sessions
        (λ r h. ne→== r.session_id u (λ e. n (sym e ∙ ==_sound r.session_id sid h)))
        (λ r h. ne→== r.session_id u (λ e. n (sym e ∙ ==_sound r.session_id sid h))));
  roster_same = rw (
      filter-delete_where_other (λ r. r.session_id == sid) (λ r. r.session_id == u) s.fork_roster
        (λ r h. ne→== r.session_id sid (λ e. n (sym (==_sound r.session_id u h) ∙ e))));
  latches_same = λ name label.
      count_where-any (is_fire u name label) _
      ∙ (any-delete_where_other (λ r. r.session_id == sid) (is_fire u name label) s.fork_fires
            (λ r h. not_closed r.session_id _ h)
          ∙ sym (count_where-any (is_fire u name label) s.fork_fires));
  spawns_same = λ tool task.
      count_where-any (is_notified u tool task) _
      ∙ (any-delete_where_other (λ r. r.session_id == sid) (is_notified u tool task) s.fork_spawns
            (λ r h. not_closed r.session_id _ h)
          ∙ sym (count_where-any (is_notified u tool task) s.fork_spawns));
  completions_same = λ name since.
      count_where-any (is_completion u name since) _
      ∙ (any-delete_where_other (λ r. r.session_id == sid) (is_completion u name since)
            s.fork_spawns (λ r h. not_closed r.session_id _ h)
          ∙ sym (count_where-any (is_completion u name since) s.fork_spawns));
  pending_same = rw (
      filter-delete_where_other (λ r. r.session_id == sid) (λ r. r.session_id == u) s.pending_deps
        (λ r h. ne→== r.session_id sid (λ e. n (sym (==_sound r.session_id u h) ∙ e))));
}
  where
    not_closed : (x : Text) (b : Bool) → (x == u && b) ≡ true → (x == sid) ≡ false
    not_closed x b h = ne→== x sid (λ e. n (sym (==_sound x u (first_of_and (x == u) b h)) ∙ e))

-- Closing a session forgets its roster, latches, spawns and held dependents, and leaves every other
-- session as it was.
pub close_session_lem :
    (sid : Text) (s : Store)
    → IsCleared sid (close_session sid s)
      × ((u : Text) → u ≢ sid → SameSession u (close_session sid s) s)
close_session_lem sid s =
    (close_session-IsCleared sid s, λ u n. close_session-SameSession sid u s n)
