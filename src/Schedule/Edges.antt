-- ===== src/Schedule/Edges.antt =====
-- Which edges are requested: those that name another selected fork.
use mathlib.Core.List.{filter_map}
use forksan.Prelude.{
  In-filter_map, ne→==, filter, subst, In-filter, true, arith, ◌-◌, ◌≤◌, not, suc, ◌+◌, get_or, map,
  IsDistinct, ◌≢◌, none, length, Text, get_elem?, ℕ, ◌≡◌, refl, ap, ◌∙◌, sym, ◌↔◌, ◌⊎◌, inl, inr,
  List, [], ◌∷◌, Option, some, In, Bool-cases, Option-cases, text_eq, nat_eq, ◌==◌, ==_sound,
}
use forksan.Schedule.{
  runnable_nodes, requested, edges_of, all_edges, name_to_idx, resolve_deps, Selected, dedup,
  dedup_from,
}
use mathlib.Core.Option.{some_inj}
use forksan.Prelude.{zero, if◌then◌else◌, ==_refl, subst}
use forksan.Schedule.{later_or}
use forksan.Schedule.Resolve.{IsResolved, break_cycles-IsResolved, undone-le-length}
use forksan.Schedule.Peel.{runnable_nodes-Peeled}

In-dedup_from : (d x : ℕ) (xs : List ℕ) → (In d (dedup_from x xs) ⊎ (d ≡ x)) ↔ (In d xs ⊎ (d ≡ x))
unfolding dedup_from
In-dedup_from d x [] = (λ h. h, λ h. h)
In-dedup_from d x (y ∷ ys) =
    let ih = In-dedup_from d y ys in
    elim (Bool-cases (y == x)) [
      | inl same ↦
          let at : y ≡ x = ==_sound y x same in
          rw same (
            λ h. elim (ih.0 (move h (sym at))) [ inl m ↦ inl (inr m) | inr e ↦ inr (e ∙ at) ],
            λ h. elim h [
              | inl (inl e) ↦ inr (e ∙ at)
              | inl (inr m) ↦ move (ih.1 (inl m)) at
              | inr e ↦ inr e
            ],
          )
      | inr other ↦ rw other (
        λ h. elim h [
          | inl (inl e) ↦ inl (inl e)
          | inl (inr m) ↦ elim (ih.0 (inl m)) [ inl n ↦ inl (inr n) | inr e ↦ inl (inl e) ]
          | inr e ↦ inr e
        ],
        λ h. elim h [
          | inl (inl e) ↦ inl (inl e)
          | inl (inr m) ↦ elim (ih.1 (inl m)) [ inl n ↦ inl (inr n) | inr e ↦ inl (inl e) ]
          | inr e ↦ inr e
        ],
      )
    ]
  where
    move : {P : Type 0} {u v : ℕ} → P ⊎ (d ≡ u) → u ≡ v → P ⊎ (d ≡ v)
    move (inl p) e = inl p
    move (inr q) e = inr (q ∙ e)

In-dedup : (d : ℕ) (xs : List ℕ) → In d (dedup xs) ↔ In d xs
unfolding dedup
In-dedup d [] = (λ m. m, λ m. m)
In-dedup d (x ∷ xs) =
    let h = In-dedup_from d x xs in
    (
      λ m. elim m [ inl e ↦ inl e | inr n ↦ elim (h.0 (inl n)) [ inl k ↦ inr k | inr e ↦ inl e ] ],
      λ m. elim m [ inl e ↦ inl e | inr n ↦ elim (h.1 (inl n)) [ inl k ↦ inr k | inr e ↦ inl e ] ],
    )

module _ {S : Type 0} ⦃sel : Selected S⦄ where
  name_to_idx_sound :
      (ss : List S) (i d : ℕ) (a : Text)
      → name_to_idx ss i a ≡ some d
      → (s : S) × (i ≤ d) × (get_elem? ss (d - i) ≡ some s) × (sel.name s ≡ a)
  unfolding name_to_idx
  name_to_idx_sound [] i d a e = cc
  name_to_idx_sound (s ∷ ss) i d a e = elim (Option-cases (name_to_idx ss (suc i) a)) [
    | inr (k, later) ↦
        let (t, le, at, n) = name_to_idx_sound ss (suc i) d a (ground arith) in
        (t, omega arith, ap (get_elem? (s ∷ ss)) (step d le) ∙ at, n)
    | inl none_later ↦ elim (Bool-cases (sel.name s == a)) [
      | inl same ↦ (
        s,
        ground arith,
        ap (get_elem? (s ∷ ss)) (first none_later same e),
        ==_sound (sel.name s) a same,
      )
      | inr other ↦ absurd (ground arith)
    ]
  ]
    where
      step : (k : ℕ) → suc i ≤ k → k - i ≡ suc (k - suc i)
      step k h = omega arith

      first :
          name_to_idx ss (suc i) a ≡ none
          → (sel.name s == a) ≡ true
          → later_or (name_to_idx ss (suc i) a) (if sel.name s == a then some i else none) ≡ some d
          → d - i ≡ 0
      first p q r = ground arith

  In-names :
      (ss : List S) (k : ℕ) (t : S) → get_elem? ss k ≡ some t → In (sel.name t) (map sel.name ss)
  In-names [] k t e = cc
  In-names (s ∷ ss) zero t e = inl (ap sel.name (sym (some_inj.0 e)))
  In-names (s ∷ ss) (suc k) t e = inr (In-names ss k t e)

  name_to_idx-none :
      (ss : List S) (i : ℕ) (a : Text) → ¬ In a (map sel.name ss) → name_to_idx ss i a ≡ none
  name_to_idx-none ss i a n = elim (Option-cases (name_to_idx ss i a)) [
    | inl e ↦ e
    | inr (d, e) ↦
        let (t, le, at, q) = name_to_idx_sound ss i d a e in
        absurd (n (subst (λ b. In b (map sel.name ss)) q (In-names ss (d - i) t at)))
  ]

  name_to_idx_complete :
      (ss : List S) (i k : ℕ) (t : S)
      → IsDistinct (map sel.name ss)
      → get_elem? ss k ≡ some t
      → name_to_idx ss i (sel.name t) ≡ some (i + k)
  unfolding name_to_idx
  name_to_idx_complete [] i k t u e = cc
  name_to_idx_complete (s ∷ ss) i zero t u e =
      let same : sel.name s ≡ sel.name t = ap sel.name (some_inj.0 e) in
      rw
        (
          name_to_idx-none ss (suc i) (sel.name t) (subst (λ b. ¬ In b (map sel.name ss)) same u.0),
          ap (λ b. b == sel.name t) same ∙ ==_refl (sel.name t),
        )
        (ap some (omega arith))
  name_to_idx_complete (s ∷ ss) i (suc k) t u e =
      rw (name_to_idx_complete ss (suc i) k t u.1 e) (ap some (omega arith))

  row_at :
      (selected ss : List S) (i k : ℕ) (s : S)
      → get_elem? ss k ≡ some s
      → get_or (all_edges selected i ss) k [] ≡ edges_of selected (i + k) s
  unfolding all_edges
  row_at selected [] i k s e = cc
  row_at selected (x ∷ ss) i zero s e = edges_eq (some_inj.0 e)
    where
      edges_eq : x ≡ s → edges_of selected i x ≡ edges_of selected (i + 0) s
      edges_eq q = ap (edges_of selected i) q ∙ ap (λ j. edges_of selected j s) (omega arith)
  row_at selected (x ∷ ss) i (suc k) s e =
      row_at selected ss (suc i) k s e ∙ ap (λ j. edges_of selected j s) (omega arith)

  row_out :
      (selected ss : List S) (i k : ℕ)
      → get_elem? ss k ≡ none
      → get_or (all_edges selected i ss) k [] ≡ []
  unfolding all_edges
  row_out selected [] i k e = refl
  row_out selected (x ∷ ss) i zero e = cc
  row_out selected (x ∷ ss) i (suc k) e = row_out selected ss (suc i) k e

  length-all_edges : (selected ss : List S) (i : ℕ) → length (all_edges selected i ss) ≡ length ss
  unfolding all_edges
  length-all_edges selected [] i = refl
  length-all_edges selected (s ∷ ss) i = ap suc (length-all_edges selected ss (suc i))

  pub length-requested : (selected : List S) → length (requested selected) ≡ length selected
  unfolding requested
  length-requested selected = length-all_edges selected selected 0

  In-edges_of :
      (selected : List S) (i d : ℕ) (s : S)
      → In d (edges_of selected i s)
        ↔ ((d ≢ i) × ((a : Text) × In a (sel.after s) × (name_to_idx selected 0 a ≡ some d)))
  unfolding edges_of
  In-edges_of selected i d s =
      let found = filter_map (name_to_idx selected 0) (sel.after s) in
      let kept = In-filter (λ k. not (k == i)) d found in
      let deps = In-dedup d (filter (λ k. not (k == i)) found) in
      let named = In-filter_map (name_to_idx selected 0) d (sel.after s) in
      (
        λ m. let (n, q) = kept.0 (deps.0 m) in (λ e. not_self e q, named.0 n),
        λ h. deps.1 (kept.1 (named.1 h.1, ap not (ne→== d i h.0))),
      )
    where
      not_self : d ≡ i → not (d == i) ≡ true → ⊥
      not_self e q = ground arith

  -- Node `i` is to run after node `d`.
  abbrev pub RunsAfter : List S → ℕ → ℕ → Type 0
  RunsAfter selected i d =
      (s : S) × (t : S) × (get_elem? selected i ≡ some s)
      × (get_elem? selected d ≡ some t)
      × (d ≢ i)
      × In (sel.name t) (sel.after s)

  -- With distinct names the requested edges are exactly those between two selected forks of which one
  -- names the other in `after`: names that were not selected and a fork's own name give none.
  pub requested_iff :
      (selected : List S) (i d : ℕ)
      → IsDistinct (map sel.name selected)
      → In d (get_or (requested selected) i []) ↔ RunsAfter selected i d
  unfolding requested
  requested_iff selected i d u = elim (Option-cases (get_elem? selected i)) [
    | inl out ↦ (
      λ m. absurd (subst (In d) (row_out selected selected 0 i out) m),
      λ (s, t, at, q, n, k). cc (out, at),
    )
    | inr (s, at) ↦
        let row =
          row_at selected selected 0 i s at ∙ ap (λ j. edges_of selected j s) (zero_plus i) in
        let edges = In-edges_of selected i d s in
        (
          λ m.
              let (n, (a, k, e)) = edges.0 (subst (In d) row m) in
              let (t, le, q, name) = name_to_idx_sound selected 0 d a e in
              (
                s,
                t,
                at,
                ap (get_elem? selected) (minus_zero d) ∙ q,
                n,
                subst (λ b. In b (sel.after s)) (sym name) k,
              ),
          λ (s', t, at', q, n, k).
              let same : s' ≡ s = some_eq at' at in
              subst (In d) (sym row) (
                edges.1 (
                  n,
                  (
                    sel.name t,
                    subst (λ r. In (sel.name t) (sel.after r)) same k,
                    name_to_idx_complete selected 0 d t u q ∙ ap some (zero_plus d),
                  ),
                )),
        )
  ]
    where
      zero_plus : (k : ℕ) → 0 + k ≡ k
      zero_plus k = omega arith

      minus_zero : (k : ℕ) → k ≡ k - 0
      minus_zero k = omega arith

      some_eq : {x y : S} {o : Option S} → o ≡ some x → o ≡ some y → x ≡ y
      some_eq p q = cc (p, q)

  -- The resolved graph is acyclic, as every node can run once its dependencies have; it has the
  -- nodes of the requested graph and no edge that was not requested; and it keeps every edge to a
  -- fork that no cycle holds up.
  pub resolve_deps-IsResolved :
      (selected : List S) → IsResolved (requested selected) (resolve_deps selected)
  unfolding resolve_deps
  resolve_deps-IsResolved selected =
      break_cycles-IsResolved (suc (length selected)) (requested selected) (
        omega (
          arith,
          undone-le-length (runnable_nodes (requested selected)),
          (runnable_nodes-Peeled (requested selected)).size,
          length-requested selected,
        ))
