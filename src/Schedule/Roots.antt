-- ===== src/Schedule/Roots.antt =====
-- The nodes that can run at once.
use forksan.Prelude.{
  ◌-◌, ℕ, ◌<◌, ◌≡◌, refl, sym, inl, inr, false, List, [], ◌∷◌, length, get_or, In, arith,
  Option-cases, subst,
}
use forksan.Schedule.{
  Graph, Selected, requested, resolve_deps, break_cycles, runnable_nodes, first_undone, is_done,
}
use forksan.Schedule.Peel.{Runnable, runnable, runnable_nodes_iff, runnable_nodes-Peeled}
use forksan.Schedule.Resolve.{first_undone-some}
use forksan.Schedule.Edges.{resolve_deps-IsResolved, length-requested}

-- Below every runnable node there is a node that waits for nothing.
root_of :
    {deps : Graph} (i : ℕ) → Runnable deps i → (r : ℕ) × (r < length deps) × (get_or deps r [] ≡ [])
root_of {deps} i (runnable _ lt smaller) =
    go (get_or deps i []) refl (λ d m. root_of d (smaller d m))
  where
    go :
        (row : List ℕ)
        → get_or deps i [] ≡ row
        → ((d : ℕ)
            → In d (get_or deps i [])
            → (r : ℕ) × (r < length deps) × (get_or deps r [] ≡ []))
        → (r : ℕ) × (r < length deps) × (get_or deps r [] ≡ [])
    go [] e below = (i, lt, e)
    go (d ∷ row) e below = below d (subst (In d) (sym e) (inl refl))

module _ {S : Type 0} ⦃sel : Selected S⦄ where
  pub root_of-resolve_deps :
      (selected : List S)
      → 0 < length selected
      → (r : ℕ) × (r < length selected) × (get_or (resolve_deps selected) r [] ≡ [])
  root_of-resolve_deps selected h =
      let resolved = resolve_deps-IsResolved selected in
      let (r, lt, e) = root_of 0 (resolved.acyclic 0 (omega (arith, length-requested selected))) in
      (r, omega (arith, length-requested selected, resolved.subgraph.nodes), e)

  -- Where every selected fork can run under the requested edges, that is where they hold no cycle,
  -- the requested edges are left as they are.
  pub resolve_deps-acyclic :
      (selected : List S)
      → ((i : ℕ) → i < length selected → Runnable (requested selected) i)
      → resolve_deps selected ≡ requested selected
  unfolding resolve_deps break_cycles
  resolve_deps-acyclic selected h =
      elim (Option-cases (first_undone 0 (runnable_nodes (requested selected)))) [
        | inl e ↦ rw (e, break_cycles)
        | inr (cut, e) ↦
            let (a, lt, held) = first_undone-some 0 cut (runnable_nodes (requested selected)) e in
            absurd (contradiction (cut - 0) lt held)
      ]
    where
      contradiction :
          (k : ℕ)
          → k < length (runnable_nodes (requested selected))
          → is_done (runnable_nodes (requested selected)) k ≡ false
          → ⊥
      contradiction k lt held = cc (
        held,
        (runnable_nodes_iff (requested selected) k).1 (
            h k (
              omega (
                arith,
                length-requested selected,
                (runnable_nodes-Peeled (requested selected)).size,
              ))),
      )
