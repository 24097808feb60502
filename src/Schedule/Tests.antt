-- ===== src/Schedule/Tests.antt =====
-- The graphs of the source's tests, and the theorems of the siblings at them.
use forksan.Prelude.{
  sym, subst, ℕ, zero, suc, ◌<◌, ◌≡◌, ◌↔◌, refl, inl, inr, List, [], ◌∷◌, Text, codes, length, In,
  get_or, all, filter, text_beq, arith, nat_eq, text_eq,
}
use mathlib.Core.List.{filter_map}
use forksan.Schedule.{
  Selected, requested, resolve_deps, edges_of, name_to_idx, break_cycles, cut_edges, runnable_nodes,
  first_undone, peel, pass, dedup,
}
use forksan.Schedule.Resolve.{IsResolved}
use forksan.Schedule.Peel.{Runnable, runnable}
use forksan.Schedule.Edges.{requested_iff, RunsAfter, resolve_deps-IsResolved}

abbrev Node : Type 0
Node = Text × List Text

instance abbrev node_selected : Selected Node
node_selected = record { name = λ n. n.0; after = λ n. n.1 }

-- a and b wait for each other, and c for b.
abbrev two_cycle : List Node
two_cycle =
    (codes "a", codes "b" ∷ []) ∷ (codes "b", codes "a" ∷ []) ∷ (codes "c", codes "b" ∷ []) ∷ []

abbrev chain : List Node
chain = (codes "a", []) ∷ (codes "b", codes "a" ∷ codes "ghost" ∷ codes "b" ∷ []) ∷ []

requested-two_cycle : requested two_cycle ≡ (1 ∷ []) ∷ (0 ∷ []) ∷ (1 ∷ []) ∷ []
unfolding requested edges_of name_to_idx dedup filter filter_map text_beq
requested-two_cycle = refl

two_cycle_resolved : resolve_deps two_cycle ≡ [] ∷ (0 ∷ []) ∷ (1 ∷ []) ∷ []
unfolding resolve_deps requested edges_of name_to_idx dedup filter filter_map text_beq break_cycles
    cut_edges runnable_nodes first_undone peel pass all
two_cycle_resolved = refl

requested-chain : requested chain ≡ [] ∷ (0 ∷ []) ∷ []
unfolding requested edges_of name_to_idx dedup filter filter_map text_beq
requested-chain = refl

resolve_deps-IsResolved_example : IsResolved (requested two_cycle) (resolve_deps two_cycle)
resolve_deps-IsResolved_example = resolve_deps-IsResolved two_cycle

requested_iff_example : In 1 (get_or (requested two_cycle) 2 []) ↔ RunsAfter two_cycle 2 1
requested_iff_example = requested_iff two_cycle 2 1 (grind arith)

chain-Runnable : (i : ℕ) → i < length chain → Runnable (requested chain) i
unfolding requested edges_of name_to_idx dedup filter filter_map text_beq
chain-Runnable zero h = runnable 0 (omega arith) (λ d m. absurd m)
chain-Runnable (suc zero) h = runnable 1 (omega arith) (λ d m. elim m [
  | inl e ↦ subst (Runnable (requested chain)) (sym e) (runnable 0 (omega arith) (λ d n. absurd n))
  | inr f ↦ absurd f
])
chain-Runnable (suc (suc i)) h = absurd (omega arith)
