-- ===== src/Schedule/Peel.antt =====
-- Peeling marks exactly the nodes from which no path of dependencies runs into a cycle.
use forksan.Prelude.{
  ◌↔◌, get_or-replicate, All-all, length-replicate, replicate, In-All, ℕ, zero, suc, ◌+◌, ◌<◌, ◌≤◌,
  ◌≡◌, refl, ap, ◌∙◌, sym, inl, inr, Bool, true, false, not, ◌&&◌, List, [], ◌∷◌, length, get_or,
  set, all, all-All, All, All-In, In, arith, Bool-cases, length-set, get_or-set_ne, subst, ◌==◌,
  nat_eq, nat_beq,
}
use forksan.Schedule.{runnable_nodes, peel, Graph, is_done, pass}

-- A node of the graph whose dependencies can all run before it, to any depth.
pub data Runnable (deps : Graph) : ℕ → Type 0 where
  runnable :
      (i : ℕ)
      → i < length deps
      → ((d : ℕ) → In d (get_or deps i []) → Runnable deps d)
      → Runnable deps i

abbrev pub IsSound : Graph → List Bool → Type 0
IsSound deps done = (i : ℕ) → is_done done i ≡ true → Runnable deps i

-- `rows` are the rows of `deps` from `i` on.
pub record IsSuffix (deps rows : Graph) (i : ℕ) : Type 0 where
  row_at : (j : ℕ) → get_or rows j [] ≡ get_or deps (i + j) []
  size : i + length rows ≡ length deps

IsSuffix-tail :
    (deps rows : Graph) (row : List ℕ) (i : ℕ)
    → IsSuffix deps (row ∷ rows) i
    → IsSuffix deps rows (suc i)
IsSuffix-tail deps rows row i s = record {
  row_at = λ j. s.row_at (suc j) ∙ ap (λ k. get_or deps k []) (omega arith);
  size = omega (arith, s.size);
}

IsSuffix-whole : (deps : Graph) → IsSuffix deps deps 0
IsSuffix-whole deps = record {
  row_at = λ j. ap (λ k. get_or deps k []) (omega arith);
  size = omega arith;
}

head_row :
    (deps rows : Graph) (row : List ℕ) (i : ℕ)
    → IsSuffix deps (row ∷ rows) i
    → row ≡ get_or deps i []
head_row deps rows row i s = s.row_at 0 ∙ ap (λ k. get_or deps k []) (omega arith)

mark-IsSound :
    (deps : Graph) (done : List Bool) (i : ℕ)
    → i < length deps
    → All (λ d. is_done done d ≡ true) (get_or deps i [])
    → IsSound deps done
    → IsSound deps (set done i true)
mark-IsSound deps done i lt ready sound j h = elim (Bool-cases (i == j)) [
  | inl same ↦
      subst (Runnable deps) (eq_of same)
        (runnable i lt (λ d m. sound d (All-In (λ d. is_done done d ≡ true) _ d ready m)))
  | inr other ↦ sound j (sym (get_or-set_ne done i j true false (ne_of other)) ∙ h)
]
  where
    eq_of : nat_beq i j ≡ true → i ≡ j
    eq_of q = ground arith

    ne_of : nat_beq i j ≡ false → i ≡ j → ⊥
    ne_of q e = ground arith

pass-IsSound :
    (deps : Graph) (i : ℕ) (rows : Graph) (done : List Bool) (changed : Bool)
    → IsSuffix deps rows i
    → IsSound deps done
    → IsSound deps (pass i rows done changed).0
unfolding pass
pass-IsSound deps i [] done changed s sound = sound
pass-IsSound deps i (row ∷ rows) done changed s sound =
    elim (Bool-cases (not (is_done done i) && all (is_done done) row)) [
      | inl ready ↦
          rw (ready, pass)
            (pass-IsSound deps (suc i) rows (set done i true) true (IsSuffix-tail deps rows row i s)
              (mark-IsSound deps done i (omega (arith, s.size))
                (subst (All (λ d. is_done done d ≡ true)) (head_row deps rows row i s)
                  (all-All (is_done done) row (second ready)))
                sound))
      | inr waits ↦
          rw (waits, pass)
            (pass-IsSound deps (suc i) rows done changed (IsSuffix-tail deps rows row i s) sound)
    ]
  where
    second : (not (is_done done i) && all (is_done done) row) ≡ true → all (is_done done) row ≡ true
    second q = ground arith

-- How many nodes are not marked.
abbrev pub undone : List Bool → ℕ
undone [] = 0
undone (true ∷ done) = undone done
undone (false ∷ done) = suc (undone done)

undone-set :
    (done : List Bool) (i : ℕ)
    → i < length done
    → is_done done i ≡ false
    → suc (undone (set done i true)) ≡ undone done
undone-set [] i h e = elim h [ ]
undone-set (true ∷ done) zero h e = cc
undone-set (false ∷ done) zero h e = refl
undone-set (true ∷ done) (suc i) h e = undone-set done i (omega arith) e
undone-set (false ∷ done) (suc i) h e = ap suc (undone-set done i (omega arith) e)

-- What a pass does to the marks, from whatever row it starts.
record Passed (i : ℕ) (rows : Graph) (done : List Bool) (changed : Bool) (r : List Bool × Bool)
    : Type 0 where
  size : length r.0 ≡ length done
  fewer : undone r.0 ≤ undone done
  progress : changed ≡ false → r.1 ≡ true → undone r.0 < undone done
  sticky : changed ≡ true → r.1 ≡ true
  idle : r.1 ≡ false → r.0 ≡ done
  blocked :
      r.1 ≡ false
      → (j : ℕ) → j < length rows
      → (not (is_done done (i + j)) && all (is_done done) (get_or rows j [])) ≡ false

pass-Passed :
    (i : ℕ) (rows : Graph) (done : List Bool) (changed : Bool)
    → i + length rows ≤ length done
    → Passed i rows done changed (pass i rows done changed)
unfolding pass
pass-Passed i [] done changed fit = record {
  size = refl;
  fewer = omega arith;
  progress = λ p q. cc;
  sticky = λ p. p;
  idle = λ p. refl;
  blocked = λ p j h. elim h [ ];
}
pass-Passed i (row ∷ rows) done changed fit =
    elim (Bool-cases (not (is_done done i) && all (is_done done) row)) [
      | inl ready ↦
          let ih =
            pass-Passed (suc i) rows (set done i true) true
              (omega (arith, length-set done i true)) in
          rw (ready, pass) (on_mark ready ih)
      | inr waits ↦
          let ih = pass-Passed (suc i) rows done changed (omega arith) in
          rw (waits, pass) (on_skip waits ih)
    ]
  where
    unmarked : (not (is_done done i) && all (is_done done) row) ≡ true → is_done done i ≡ false
    unmarked q = ground arith

    on_mark :
        {r : List Bool × Bool}
        → (not (is_done done i) && all (is_done done) row) ≡ true
        → Passed (suc i) rows (set done i true) true r
        → Passed i (row ∷ rows) done changed r
    on_mark {r} ready ih =
        let one = undone-set done i (omega arith) (unmarked ready) in
        record {
          size = ih.size ∙ length-set done i true;
          fewer = omega (arith, ih.fewer, one);
          progress = λ p q. omega (arith, ih.fewer, one);
          sticky = λ p. ih.sticky refl;
          idle = λ p. cc (ih.sticky refl);
          blocked = λ p j h. cc (ih.sticky refl);
        }

    on_skip :
        {r : List Bool × Bool}
        → (not (is_done done i) && all (is_done done) row) ≡ false
        → Passed (suc i) rows done changed r
        → Passed i (row ∷ rows) done changed r
    on_skip {r} waits ih = record {
      size = ih.size;
      fewer = ih.fewer;
      progress = ih.progress;
      sticky = ih.sticky;
      idle = ih.idle;
      blocked = λ p j h. at_row j p h;
    }
      where
        at_row :
            (j : ℕ)
            → r.1 ≡ false
            → j < suc (length rows)
            → (not (is_done done (i + j)) && all (is_done done) (get_or (row ∷ rows) j [])) ≡ false
        at_row zero p h =
            ap (λ k. not (is_done done k) && all (is_done done) row) (omega arith) ∙ waits
        at_row (suc j) p h =
            ap (λ k. not (is_done done k) && all (is_done done) (get_or rows j [])) (omega arith)
            ∙ ih.blocked p j (omega arith)

-- The state in which the inner loop ends.
pub record Peeled (deps : Graph) (done : List Bool) : Type 0 where
  pub size : length done ≡ length deps
  pub sound : IsSound deps done
  pub closed :
      (j : ℕ)
      → j < length deps
      → (not (is_done done j) && all (is_done done) (get_or deps j [])) ≡ false

peel-Peeled :
    (fuel : ℕ) (deps : Graph) (done : List Bool)
    → undone done < fuel
    → length done ≡ length deps
    → IsSound deps done
    → Peeled deps (peel fuel deps done)
unfolding peel
peel-Peeled zero deps done h size sound = elim h [ ]
peel-Peeled (suc fuel) deps done h size sound =
    let passed = pass-Passed 0 deps done false (omega arith) in
    let kept = pass-IsSound deps 0 deps done false (IsSuffix-whole deps) sound in
    elim (Bool-cases (pass 0 deps done false).1) [
      | inl more ↦
          rw (more, peel)
            (peel-Peeled fuel deps (pass 0 deps done false).0
              (omega (arith, passed.progress refl more)) (passed.size ∙ size) kept)
      | inr stop ↦
          rw (stop, peel)
            (record {
              size = passed.size ∙ size;
              sound = kept;
              closed = λ j lt. rw (passed.idle stop) (
                  ap (λ k. not (is_done done k) && all (is_done done) (get_or deps j []))
                    (omega arith)
                  ∙ passed.blocked stop j lt);
            })
    ]

undone-replicate : (n : ℕ) → undone (replicate n false) ≡ n
undone-replicate zero = refl
undone-replicate (suc n) = ap suc (undone-replicate n)

pub runnable_nodes-Peeled : (deps : Graph) → Peeled deps (runnable_nodes deps)
unfolding runnable_nodes
runnable_nodes-Peeled deps =
    peel-Peeled (suc (length deps)) deps (replicate (length deps) false)
      (omega (arith, undone-replicate (length deps))) (length-replicate (length deps) false)
      (λ i h. cc (get_or-replicate (length deps) i false))

-- At the end every runnable node is marked.
marked_of_Runnable :
    (deps : Graph) (done : List Bool)
    → Peeled deps done
    → (i : ℕ) → Runnable deps i
    → is_done done i ≡ true
marked_of_Runnable deps done p i (runnable _ lt smaller) =
    let ready =
      In-All (λ d. is_done done d ≡ true) (get_or deps i [])
        (λ d m. marked_of_Runnable deps done p d (smaller d m)) in
    conclude (p.closed i lt) (All-all (is_done done) (get_or deps i []) ready)
  where
    conclude :
        (not (is_done done i) && all (is_done done) (get_or deps i [])) ≡ false
        → all (is_done done) (get_or deps i []) ≡ true
        → is_done done i ≡ true
    conclude q r = ground arith

-- The inner loop marks exactly the nodes that can all run in some order.
pub runnable_nodes_iff :
    (deps : Graph) (i : ℕ) → (is_done (runnable_nodes deps) i ≡ true) ↔ Runnable deps i
runnable_nodes_iff deps i =
    let p = runnable_nodes-Peeled deps in
    (p.sound i, marked_of_Runnable deps (runnable_nodes deps) p i)
