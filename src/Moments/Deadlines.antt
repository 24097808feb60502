-- ===== src/Moments/Deadlines.antt =====
-- `idle_deadlines` lists exactly the deadlines at which some fork is due, once each, in order.
use forksan.Prelude.{
  ℕ, ◌<◌, ◌≡◌, ◌≢◌, refl, ap, ◌∙◌, sym, ◌↔◌, ◌⊎◌, inl, inr, true, false, List, [], ◌∷◌, Option,
  none, In, In-append, In-append_left, In-append_right, IsDistinct, IsDistinct-snoc, contains,
  contains-In, nat_eq, leb, ltb, arith, Bool-cases, subst, In-sort_by, IsDistinct-sort_by,
  sort_by-IsSortedBy, IsSortedBy, All,
}
use forksan.Frontmatter.{ForkDef, ForkRunOn, is_supported}
use forksan.Moments.{
  ForkMoment, idle, hits, match_moments, effective, push_deadline, collect_triggers,
  collect_deadlines, idle_deadlines,
}
use forksan.Moments.Match.{match_moments_iff}

-- The fork has an idle trigger whose deadline is `x` and is not disabled.
abbrev pub Waits : ℕ → List ForkRunOn → ℕ → Type 0
Waits d ts x = (a : Option ℕ) × In (ForkRunOn.idle a) ts × (x ≡ effective a d) × (0 < x)

In-push_deadline :
    (d x : ℕ) (out : List ℕ) → In x (push_deadline d out) ↔ (In x out ⊎ ((x ≡ d) × (0 < x)))
unfolding push_deadline
In-push_deadline d x out = elim (Bool-cases (ltb 0 d)) [
  | inr zero_d ↦
      rw zero_d
        (λ m. inl m, λ h. elim h [ inl m ↦ m | inr (e, pos) ↦ absurd (not_zero e pos zero_d) ])
  | inl pos_d ↦ elim (Bool-cases (contains out d)) [
    | inl old ↦
        rw (pos_d, old)
          (
            λ m. inl m,
            λ h. elim h [
              | inl m ↦ m
              | inr (e, pos) ↦ subst (λ y. In y out) (sym e) ((contains-In out d).0 old)
            ],
          )
    | inr new ↦
        rw (pos_d, new)
          (
            λ m. elim (In-append x out (d ∷ []) m) [
              | inl o ↦ inl o
              | inr (inl e) ↦ inr (e, positive e pos_d)
              | inr (inr f) ↦ absurd f
            ],
            λ h. elim h [
              | inl m ↦ In-append_left x out (d ∷ []) m
              | inr (e, pos) ↦ In-append_right x out (d ∷ []) (inl e)
            ],
          )
  ]
]
  where
    not_zero : x ≡ d → 0 < x → ltb 0 d ≡ false → ⊥
    not_zero e pos z = ground arith

    positive : x ≡ d → ltb 0 d ≡ true → 0 < x
    positive e p = ground arith

In-collect_triggers :
    (d x : ℕ) (ts : List ForkRunOn) (out : List ℕ)
    → In x (collect_triggers d ts out) ↔ (In x out ⊎ Waits d ts x)
unfolding collect_triggers
In-collect_triggers d x [] out =
    (λ m. inl m, λ h. elim h [ inl m ↦ m | inr (a, m, e, pos) ↦ absurd m ])
In-collect_triggers d x (ForkRunOn.idle a ∷ ts) out =
    let ih = In-collect_triggers d x ts (push_deadline (effective a d) out) in
    let first = In-push_deadline (effective a d) x out in
    (
      λ m. elim (ih.0 m) [
        | inl p ↦ elim (first.0 p) [ inl o ↦ inl o | inr (e, pos) ↦ inr (a, inl refl, e, pos) ]
        | inr (b, n, e, pos) ↦ inr (b, inr n, e, pos)
      ],
      λ h. elim h [
        | inl o ↦ ih.1 (inl (first.1 (inl o)))
        | inr (b, inl q, e, pos) ↦ ih.1 (inl (first.1 (inr (e ∙ same q, pos))))
        | inr (b, inr n, e, pos) ↦ ih.1 (inr (b, n, e, pos))
      ],
    )
  where
    same : {b : Option ℕ} → ForkRunOn.idle b ≡ ForkRunOn.idle a → effective b d ≡ effective a d
    same q = cc
In-collect_triggers d x (t ∷ ts) out =
    let ih = In-collect_triggers d x ts out in
    (
      λ m. elim (ih.0 m) [ inl o ↦ inl o | inr (b, n, e, pos) ↦ inr (b, inr n, e, pos) ],
      λ h. elim h [
        | inl o ↦ ih.1 (inl o)
        | inr (b, inl q, e, pos) ↦ absurd (cc q)
        | inr (b, inr n, e, pos) ↦ ih.1 (inr (b, n, e, pos))
      ],
    )

In-collect_deadlines :
    (d x : ℕ) (forks : List ForkDef) (out : List ℕ)
    → In x (collect_deadlines d forks out)
      ↔ (In x out ⊎ ((fork : ForkDef) × In fork forks × Waits d fork.run_on x))
unfolding collect_deadlines
In-collect_deadlines d x [] out = (λ m. inl m, λ h. elim h [ inl m ↦ m | inr (f, m, w) ↦ absurd m ])
In-collect_deadlines d x (fork ∷ forks) out =
    let ih = In-collect_deadlines d x forks (collect_triggers d fork.run_on out) in
    let first = In-collect_triggers d x fork.run_on out in
    (
      λ m. elim (ih.0 m) [
        | inl p ↦ elim (first.0 p) [ inl o ↦ inl o | inr w ↦ inr (fork, inl refl, w) ]
        | inr (g, n, w) ↦ inr (g, inr n, w)
      ],
      λ h. elim h [
        | inl o ↦ ih.1 (inl (first.1 (inl o)))
        | inr (g, inl q, w) ↦
            ih.1 (inl (first.1 (inr (subst (λ k. Waits d (ForkDef.run_on k) x) q w))))
        | inr (g, inr n, w) ↦ ih.1 (inr (g, n, w))
      ],
    )

push_deadline-IsDistinct :
    (d : ℕ) (out : List ℕ) → IsDistinct out → IsDistinct (push_deadline d out)
unfolding push_deadline
push_deadline-IsDistinct d out h = elim (Bool-cases (ltb 0 d)) [
  | inr z ↦ rw z h
  | inl p ↦ elim (Bool-cases (contains out d)) [
    | inl old ↦ rw (p, old) h
    | inr new ↦ rw (p, new) (IsDistinct-snoc out d (λ m. cc (new, (contains-In out d).1 m)) h)
  ]
]

collect_triggers-IsDistinct :
    (d : ℕ) (ts : List ForkRunOn) (out : List ℕ)
    → IsDistinct out
    → IsDistinct (collect_triggers d ts out)
unfolding collect_triggers
collect_triggers-IsDistinct d [] out h = h
collect_triggers-IsDistinct d (ForkRunOn.idle a ∷ ts) out h =
    collect_triggers-IsDistinct d ts _ (push_deadline-IsDistinct (effective a d) out h)
collect_triggers-IsDistinct d (t ∷ ts) out h = collect_triggers-IsDistinct d ts out h

collect_deadlines-IsDistinct :
    (d : ℕ) (forks : List ForkDef) (out : List ℕ)
    → IsDistinct out
    → IsDistinct (collect_deadlines d forks out)
unfolding collect_deadlines
collect_deadlines-IsDistinct d [] out h = h
collect_deadlines-IsDistinct d (fork ∷ forks) out h =
    collect_deadlines-IsDistinct d forks _ (collect_triggers-IsDistinct d fork.run_on out h)

-- Each number is below all that follow it.
abbrev pub IsAscending : List ℕ → Type 0
IsAscending [] = Unit
IsAscending (x ∷ xs) = All (λ y. x < y) xs × IsAscending xs

above : (x : ℕ) (xs : List ℕ) → ¬ In x xs → All (λ y. leb x y ≡ true) xs → All (λ y. x < y) xs
above x [] n h = tt
above x (y ∷ ys) n h = (lt_of_ne y (λ e. n (inl e)) h.0, above x ys (λ m. n (inr m)) h.1)
  where
    lt_of_ne : (z : ℕ) → x ≢ z → leb x z ≡ true → x < z
    lt_of_ne z q p = ground arith

sorted-IsAscending : (xs : List ℕ) → IsDistinct xs → IsSortedBy leb xs → IsAscending xs
sorted-IsAscending [] d h = tt
sorted-IsAscending (x ∷ xs) d h = (above x xs d.0 h.0, sorted-IsAscending xs d.1 h.1)

-- The deadlines are strictly ascending, and are exactly the positive deadlines of the idle triggers
-- of the forks, with the default for a trigger that has none.
pub idle_deadlines_lem :
    (forks : List ForkDef) (d : ℕ)
    → IsAscending (idle_deadlines forks d)
      × ((x : ℕ)
          → In x (idle_deadlines forks d)
            ↔ ((fork : ForkDef) × In fork forks × Waits d fork.run_on x))
unfolding idle_deadlines
idle_deadlines_lem forks d = (
  sorted-IsAscending _
      (IsDistinct-sort_by leb (collect_deadlines d forks [])
        (collect_deadlines-IsDistinct d forks [] tt))
      (sort_by-IsSortedBy leb leb_total leb_trans (collect_deadlines d forks [])),
  λ x.
      let sorted = In-sort_by leb x (collect_deadlines d forks []) in
      let all = In-collect_deadlines d x forks [] in
      (
        λ m. elim (all.0 (sorted.0 m)) [ inl f ↦ absurd f | inr w ↦ w ],
        λ w. sorted.1 (all.1 (inr w)),
      ),
)
  where
    leb_total : (a b : ℕ) → leb a b ≡ false → leb b a ≡ true
    leb_total a b h = ground arith

    leb_trans : (a b c : ℕ) → leb a b ≡ true → leb b c ≡ true → leb a c ≡ true
    leb_trans a b c h k = ground arith

hits-idle :
    (d x : ℕ) (a : Option ℕ) → x ≡ effective a d → 0 < x → hits d (idle x) (ForkRunOn.idle a) ≡ true
unfolding hits
hits-idle d x a e pos = ground arith

idle_of_hits :
    (d x : ℕ) (t : ForkRunOn) (ts : List ForkRunOn)
    → In t ts
    → hits d (idle x) t ≡ true
    → Waits d ts x
unfolding hits
idle_of_hits d x (ForkRunOn.idle a) ts m h = (a, m, ground arith, ground arith)
idle_of_hits d x _ ts m h = cc

-- The deadlines are exactly the times at which some fork's definition has a trigger that matches the idle
-- moment of that time.
pub idle_deadlines-match_moments :
    (forks : List ForkDef) (d x : ℕ)
    → In x (idle_deadlines forks d)
      ↔ ((fork : ForkDef) × In fork forks × (match_moments fork (idle x ∷ []) d ≢ none))
idle_deadlines-match_moments forks d x =
    let spec = (idle_deadlines_lem forks d).1 x in
    (
      λ m.
          let (fork, i, (a, j, e, pos)) = spec.0 m in
          (
            fork,
            i,
            (match_moments_iff fork (idle x ∷ []) d).1 (
              ForkRunOn.idle a,
              j,
              unfold is_supported in refl,
              (idle x, inl refl, hits-idle d x a e pos),
            ),
          ),
      λ (fork, i, h).
          let (t, j, s, (m, k, q)) = (match_moments_iff fork (idle x ∷ []) d).0 h in
          spec.1 (fork, i, idle_of_hits d x t fork.run_on j (only t k q)),
    )
  where
    only :
        {m : ForkMoment} (t : ForkRunOn)
        → In m (idle x ∷ [])
        → hits d m t ≡ true
        → hits d (idle x) t ≡ true
    only t (inl p) q = cc (ap (λ z. hits d z t) p)
    only t (inr f) q = absurd f
