-- ===== src/Schedule/Resolve.antt =====
-- `resolve_deps` ends in an acyclic graph, and drops only edges into cycles.
use forksan.Prelude.{
  Option-cases, ◌-◌, ℕ, zero, suc, ◌<◌, ◌≤◌, ◌≡◌, refl, ap, ◌∙◌, sym, inl, inr, Bool, true, false,
  List, [], ◌∷◌, none, some, length, get_or, filter, In, In-filter, arith, Bool-cases, length-set,
  get_or-set_self, get_or-set_ne, subst, nat_eq, nat_beq,
}
use forksan.Schedule.{break_cycles, Graph, is_done, runnable_nodes, first_undone, cut_edges}
use forksan.Schedule.Peel.{runnable_nodes-Peeled, undone, Runnable, runnable, runnable_nodes_iff}

-- Every edge of the first graph is an edge of the second, and they have the same nodes.
pub record IsSubgraph (small large : Graph) : Type 0 where
  pub nodes : length small ≡ length large
  pub edges : (i d : ℕ) → In d (get_or small i []) → In d (get_or large i [])

Runnable-mono :
    {small large : Graph} (i : ℕ) → IsSubgraph small large → Runnable large i → Runnable small i
Runnable-mono i s (runnable _ lt smaller) =
    runnable i (omega (arith, s.nodes)) (λ d m. Runnable-mono d s (smaller d (s.edges i d m)))

pub first_undone-some :
    (k i : ℕ) (done : List Bool)
    → first_undone k done ≡ some i
    → (k ≤ i) × (i - k < length done) × (is_done done (i - k) ≡ false)
unfolding first_undone
first_undone-some k i [] e = cc
first_undone-some k i (false ∷ done) e = ground arith
first_undone-some k i (true ∷ done) e =
    let (a, b, c) = first_undone-some (suc k) i done e in
    (omega arith, omega arith, ap (is_done (true ∷ done)) (step a) ∙ c)
  where
    step : suc k ≤ i → i - k ≡ suc (i - suc k)
    step h = omega arith

first_undone-none :
    (k : ℕ) (done : List Bool)
    → first_undone k done ≡ none
    → (i : ℕ) → i < length done
    → is_done done i ≡ true
unfolding first_undone
first_undone-none k [] e i h = elim h [ ]
first_undone-none k (false ∷ done) e i h = cc
first_undone-none k (true ∷ done) e zero h = refl
first_undone-none k (true ∷ done) e (suc i) h = first_undone-none (suc k) done e i (omega arith)

-- The row that is cut keeps its edges to marked nodes, and no other row changes.
cut_row :
    (deps : Graph) (done : List Bool) (cut : ℕ)
    → cut < length deps
    → get_or (cut_edges deps done cut) cut [] ≡ filter (is_done done) (get_or deps cut [])
unfolding cut_edges
cut_row deps done cut lt = get_or-set_self deps cut _ [] lt

other_row :
    (deps : Graph) (done : List Bool) (cut i : ℕ)
    → nat_beq cut i ≡ false
    → get_or (cut_edges deps done cut) i [] ≡ get_or deps i []
unfolding cut_edges
other_row deps done cut i ne = get_or-set_ne deps cut i _ [] (λ e. ground arith)

cut_edges-IsSubgraph :
    (deps : Graph) (done : List Bool) (cut : ℕ)
    → cut < length deps
    → IsSubgraph (cut_edges deps done cut) deps
cut_edges-IsSubgraph deps done cut lt = record {
  nodes = unfold cut_edges in length-set deps cut _;
  edges = λ i d m. elim (Bool-cases (nat_beq cut i)) [
    | inl same ↦
        let at : cut ≡ i = ground arith in
        subst (λ k. In d (get_or deps k [])) at
          ((In-filter (is_done done) d (get_or deps cut [])).0 (
            subst (In d)
              (ap (λ k. get_or (cut_edges deps done cut) k []) (sym at) ∙ cut_row deps done cut lt)
              m)).0
    | inr other ↦ subst (In d) (other_row deps done cut i other) m
  ];
}

-- A kept edge leads to a runnable node, so the node that is cut can run.
cut-Runnable :
    (deps : Graph) (cut : ℕ)
    → cut < length deps
    → Runnable (cut_edges deps (runnable_nodes deps) cut) cut
cut-Runnable deps cut lt =
    let s = cut_edges-IsSubgraph deps (runnable_nodes deps) cut lt in
    runnable cut (omega (arith, s.nodes)) (λ d m. Runnable-mono d s (
      (runnable_nodes_iff deps d).0
        ((In-filter (is_done (runnable_nodes deps)) d (get_or deps cut [])).0
          (subst (In d) (cut_row deps (runnable_nodes deps) cut lt) m)).1))

undone-le :
    (a b : List Bool)
    → length a ≡ length b
    → ((i : ℕ) → is_done a i ≡ true → is_done b i ≡ true)
    → undone b ≤ undone a
undone-le [] [] e f = omega arith
undone-le [] (y ∷ b) e f = absurd (omega (arith, e))
undone-le (x ∷ a) [] e f = absurd (omega (arith, e))
undone-le (true ∷ a) (true ∷ b) e f = undone-le a b (omega (arith, e)) (λ i. f (suc i))
undone-le (true ∷ a) (false ∷ b) e f = cc (f 0 refl)
undone-le (false ∷ a) (true ∷ b) e f =
    omega (arith, undone-le a b (omega (arith, e)) (λ i. f (suc i)))
undone-le (false ∷ a) (false ∷ b) e f =
    omega (arith, undone-le a b (omega (arith, e)) (λ i. f (suc i)))

undone-lt :
    (a b : List Bool) (c : ℕ)
    → length a ≡ length b
    → ((i : ℕ) → is_done a i ≡ true → is_done b i ≡ true)
    → is_done a c ≡ false
    → is_done b c ≡ true
    → undone b < undone a
undone-lt [] [] c e f p q = cc
undone-lt [] (y ∷ b) c e f p q = absurd (omega (arith, e))
undone-lt (x ∷ a) [] c e f p q = absurd (omega (arith, e))
undone-lt (x ∷ a) (false ∷ b) zero e f p q = cc
undone-lt (true ∷ a) (true ∷ b) zero e f p q = cc
undone-lt (false ∷ a) (true ∷ b) zero e f p q =
    omega (arith, undone-le a b (omega (arith, e)) (λ i. f (suc i)))
undone-lt (true ∷ a) (true ∷ b) (suc c) e f p q =
    undone-lt a b c (omega (arith, e)) (λ i. f (suc i)) p q
undone-lt (true ∷ a) (false ∷ b) (suc c) e f p q = cc (f 0 refl)
undone-lt (false ∷ a) (true ∷ b) (suc c) e f p q =
    omega (arith, undone-lt a b c (omega (arith, e)) (λ i. f (suc i)) p q)
undone-lt (false ∷ a) (false ∷ b) (suc c) e f p q =
    omega (arith, undone-lt a b c (omega (arith, e)) (λ i. f (suc i)) p q)

pub undone-le-length : (a : List Bool) → undone a ≤ length a
undone-le-length [] = omega arith
undone-le-length (true ∷ a) = omega (arith, undone-le-length a)
undone-le-length (false ∷ a) = omega (arith, undone-le-length a)

-- What cutting makes of the edges of a graph.
pub record IsResolved (deps result : Graph) : Type 0 where
  -- every node can run
  pub acyclic : (i : ℕ) → i < length deps → Runnable result i
  -- no edge is made up
  pub subgraph : IsSubgraph result deps
  -- an edge to a node that no cycle holds up is kept
  pub kept : (i d : ℕ) → In d (get_or deps i []) → Runnable deps d → In d (get_or result i [])

cut_edges-kept :
    (deps : Graph) (cut i d : ℕ)
    → cut < length deps
    → In d (get_or deps i [])
    → Runnable deps d
    → In d (get_or (cut_edges deps (runnable_nodes deps) cut) i [])
cut_edges-kept deps cut i d lt m r = elim (Bool-cases (nat_beq cut i)) [
  | inl same ↦
      let at : cut ≡ i = ground arith in
      subst (λ k. In d (get_or (cut_edges deps (runnable_nodes deps) cut) k [])) at
        (subst (In d) (sym (cut_row deps (runnable_nodes deps) cut lt)) (
          (In-filter (is_done (runnable_nodes deps)) d (get_or deps cut [])).1
            (subst (λ k. In d (get_or deps k [])) (sym at) m, (runnable_nodes_iff deps d).1 r)))
  | inr other ↦ subst (In d) (sym (other_row deps (runnable_nodes deps) cut i other)) m
]

cut_edges-progress :
    (deps : Graph) (cut : ℕ)
    → cut < length deps
    → is_done (runnable_nodes deps) cut ≡ false
    → undone (runnable_nodes (cut_edges deps (runnable_nodes deps) cut))
      < undone (runnable_nodes deps)
cut_edges-progress deps cut lt held =
    let next = cut_edges deps (runnable_nodes deps) cut in
    let s = cut_edges-IsSubgraph deps (runnable_nodes deps) cut lt in
    undone-lt (runnable_nodes deps) (runnable_nodes next) cut
      ((runnable_nodes-Peeled deps).size ∙ (sym s.nodes ∙ sym (runnable_nodes-Peeled next).size))
      (λ i h. (runnable_nodes_iff next i).1 (Runnable-mono i s ((runnable_nodes_iff deps i).0 h)))
      held ((runnable_nodes_iff next cut).1 (cut-Runnable deps cut lt))

IsResolved-refl :
    (deps : Graph) → ((i : ℕ) → i < length deps → Runnable deps i) → IsResolved deps deps
IsResolved-refl deps h = record {
  acyclic = h;
  subgraph = record { nodes = refl; edges = λ i d m. m };
  kept = λ i d m r. m;
}

IsResolved-cut :
    (deps result : Graph) (cut : ℕ)
    → cut < length deps
    → IsResolved (cut_edges deps (runnable_nodes deps) cut) result
    → IsResolved deps result
IsResolved-cut deps result cut lt r =
    let s = cut_edges-IsSubgraph deps (runnable_nodes deps) cut lt in
    record {
      acyclic = λ i h. r.acyclic i (omega (arith, s.nodes));
      subgraph = record {
        nodes = r.subgraph.nodes ∙ s.nodes;
        edges = λ i d m. s.edges i d (r.subgraph.edges i d m);
      };
      kept = λ i d m q. r.kept i d (cut_edges-kept deps cut i d lt m q) (Runnable-mono d s q);
    }

all_marked :
    (deps : Graph)
    → first_undone 0 (runnable_nodes deps) ≡ none
    → (i : ℕ) → i < length deps
    → Runnable deps i
all_marked deps e i h = (runnable_nodes_iff deps i).0 (
    first_undone-none 0 (runnable_nodes deps) e i
      (omega (arith, (runnable_nodes-Peeled deps).size)))

pub break_cycles-IsResolved :
    (fuel : ℕ) (deps : Graph)
    → undone (runnable_nodes deps) < fuel
    → IsResolved deps (break_cycles fuel deps)
unfolding break_cycles
break_cycles-IsResolved zero deps h = elim h [ ]
break_cycles-IsResolved (suc fuel) deps h =
    elim (Option-cases (first_undone 0 (runnable_nodes deps))) [
      | inl e ↦ rw (e, break_cycles) (IsResolved-refl deps (all_marked deps e))
      | inr (cut, e) ↦
          let (a, lt, held) = first_undone-some 0 cut (runnable_nodes deps) e in
          let bound = omega_lt cut lt in
          rw (e, break_cycles)
            (IsResolved-cut deps _ cut bound (
              break_cycles-IsResolved fuel (cut_edges deps (runnable_nodes deps) cut) (
                omega (
                  arith,
                  cut_edges-progress deps cut bound
                      (ap (is_done (runnable_nodes deps)) (minus_zero cut) ∙ held),
                ))))
    ]
  where
    omega_lt : (cut : ℕ) → cut - 0 < length (runnable_nodes deps) → cut < length deps
    omega_lt cut lt = omega (arith, (runnable_nodes-Peeled deps).size)

    minus_zero : (cut : ℕ) → cut ≡ cut - 0
    minus_zero cut = omega arith
