-- ===== src/Schedule.antt =====
-- crates/autofork-core/src/schedule.rs: `after` dependencies as an acyclic graph.
pub mod Peel
pub mod Resolve
pub mod Edges
pub mod Roots
pub mod Tests
use mathlib.Core.List.{filter_map}
use forksan.Prelude.{
  ℕ, zero, suc, Bool, true, false, not, ◌&&◌, ◌||◌, List, [], ◌∷◌, Option, none, some, Text, ◌==◌,
  nat_eq, text_eq, if◌then◌else◌, length, get_or, set, replicate, all, filter, is_empty,
}

-- What scheduling sees of a selected fork.
pub record Selected (S : Type 0) : Type 0 where
  pub name : S → Text
  pub after : S → List Text

abbrev later_or {ℓ} : {A : Type ℓ} → Option A → Option A → Option A
later_or none earlier = earlier
later_or (some a) earlier = some a

-- `Vec::dedup`: equal neighbours become one.
dedup_from : ℕ → List ℕ → List ℕ
dedup_from x [] = []
dedup_from x (y ∷ ys) = let rest = dedup_from y ys in if y == x then rest else y ∷ rest

unfoldable pub dedup : List ℕ → List ℕ
unfolding dedup_from
dedup [] = []
dedup (x ∷ xs) = x ∷ dedup_from x xs

module _ {S : Type 0} ⦃sel : Selected S⦄ where
  -- `name_to_idx.get(a)`, counted from `i`; of equal names the last one stays in the map.
  unfoldable pub name_to_idx : List S → ℕ → Text → Option ℕ
  name_to_idx [] i a = none
  name_to_idx (s ∷ ss) i a =
      later_or (name_to_idx ss (suc i) a) (if sel.name s == a then some i else none)

  -- The requested edges of node `i`.
  unfoldable pub edges_of : List S → ℕ → S → List ℕ
  unfolding dedup
  edges_of selected i s =
      dedup (filter (λ d. not (d == i)) (filter_map (name_to_idx selected 0) (sel.after s)))

  all_edges : List S → ℕ → List S → List (List ℕ)
  unfolding edges_of
  all_edges selected i [] = []
  all_edges selected i (s ∷ ss) = edges_of selected i s ∷ all_edges selected (suc i) ss

  unfoldable pub requested : List S → List (List ℕ)
  unfolding all_edges
  requested selected = all_edges selected 0 selected

abbrev pub Graph : Type 0
Graph = List (List ℕ)

abbrev pub is_done : List Bool → ℕ → Bool
is_done done i = get_or done i false

-- One `for i in 0..n`: the rows are those from `i` on, and `done` is updated as it goes.
unfoldable pub pass : ℕ → Graph → List Bool → Bool → List Bool × Bool
pass i [] done changed = (done, changed)
pass i (row ∷ rows) done changed =
    let ready = not (is_done done i) && all (is_done done) row in
    pass (suc i) rows (if ready then set done i true else done) (ready || changed)

-- The inner loop: passes until one changes nothing.
unfoldable pub peel : ℕ → Graph → List Bool → List Bool
peel zero deps done = done
peel (suc fuel) deps done =
    let (done', changed) = pass 0 deps done false in
    let again = peel fuel deps done' in if changed then again else done'

-- The nodes that can be peeled off. A pass that changes something marks a node.
unfoldable pub runnable_nodes : Graph → List Bool
runnable_nodes deps = peel (suc (length deps)) deps (replicate (length deps) false)

-- `(0..n).find(|i| !done[*i])`, counted from `i`
unfoldable pub first_undone : ℕ → List Bool → Option ℕ
first_undone i [] = none
first_undone i (true ∷ done) = first_undone (suc i) done
first_undone i (false ∷ done) = some i

-- `deps[cut].retain(|d| done[*d])`
unfoldable pub cut_edges : Graph → List Bool → ℕ → Graph
cut_edges deps done cut = set deps cut (filter (is_done done) (get_or deps cut []))

-- The outer loop: each round cuts one node loose.
unfoldable pub break_cycles : ℕ → Graph → Graph
break_cycles zero deps = deps
break_cycles (suc fuel) deps =
    let done = runnable_nodes deps in
    elim (first_undone 0 done) [
      | none ↦ deps
      | some cut ↦ break_cycles fuel (cut_edges deps done cut)
    ]

unfoldable pub resolve_deps : {S : Type 0} ⦃sel : Selected S⦄ → List S → Graph
resolve_deps selected = break_cycles (suc (length selected)) (requested selected)

empty_rows : ℕ → Graph → List ℕ
empty_rows i [] = []
empty_rows i (row ∷ rows) =
    let rest = empty_rows (suc i) rows in if is_empty row then i ∷ rest else rest

-- The nodes with no dependencies.
unfoldable pub roots : Graph → List ℕ
unfolding empty_rows
roots deps = empty_rows 0 deps
