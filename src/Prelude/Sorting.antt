-- ===== src/Prelude/Sorting.antt =====
-- Stable insertion sort under a Boolean order, for `sort_unstable` and `ORDER BY`.
use mathlib.Core.Path.{◌≡◌, sym}
use mathlib.Core.Logic.{◌⊎◌, inl, inr, ◌↔◌}
use mathlib.Core.List.{List, [], ◌∷◌}
use mathlib.Core.Bool.{Bool, true, false}
use forksan.Prelude.Tests.{if◌then◌else◌, Bool-cases}
use forksan.Prelude.Lists.{In, IsDistinct, All}

module _ {A : Type 0} (le : A → A → Bool) where
  insert_by : A → List A → List A
  insert_by a [] = a ∷ []
  insert_by a (x ∷ xs) = let rest = insert_by a xs in if le a x then a ∷ x ∷ xs else x ∷ rest

  unfoldable pub sort_by : List A → List A
  unfolding insert_by
  sort_by [] = []
  sort_by (x ∷ xs) = insert_by x (sort_by xs)

  -- Each element is before or equal to all that follow it.
  abbrev pub IsSortedBy : List A → Type 0
  IsSortedBy [] = Unit
  IsSortedBy (x ∷ xs) = All (λ y. le x y ≡ true) xs × IsSortedBy xs

  In-insert_by : (b a : A) (xs : List A) → In b (insert_by a xs) ↔ ((b ≡ a) ⊎ In b xs)
  unfolding insert_by
  In-insert_by b a [] = (λ m. m, λ m. m)
  In-insert_by b a (x ∷ xs) = elim (Bool-cases (le a x)) [
    | inl e ↦ rw e (λ m. m, λ m. m)
    | inr e ↦ rw e (
      λ m. elim m [
        | inl p ↦ inr (inl p)
        | inr q ↦ elim ((In-insert_by b a xs).0 q) [ inl p ↦ inl p | inr r ↦ inr (inr r) ]
      ],
      λ m. elim m [
        | inl p ↦ inr ((In-insert_by b a xs).1 (inl p))
        | inr (inl p) ↦ inl p
        | inr (inr r) ↦ inr ((In-insert_by b a xs).1 (inr r))
      ],
    )
  ]

  pub In-sort_by : (b : A) (xs : List A) → In b (sort_by xs) ↔ In b xs
  unfolding sort_by
  In-sort_by b [] = (λ m. m, λ m. m)
  In-sort_by b (x ∷ xs) = (
    λ m. elim ((In-insert_by b x (sort_by xs)).0 m) [
      | inl e ↦ inl e
      | inr r ↦ inr ((In-sort_by b xs).0 r)
    ],
    λ m.
        (In-insert_by b x (sort_by xs)).1
          (elim m [ inl e ↦ inl e | inr r ↦ inr ((In-sort_by b xs).1 r) ]),
  )

  All-insert_by : (P : A → Type 0) (a : A) (xs : List A) → P a → All P xs → All P (insert_by a xs)
  unfolding insert_by
  All-insert_by P a [] p h = (p, tt)
  All-insert_by P a (x ∷ xs) p h = elim (Bool-cases (le a x)) [
    | inl e ↦ rw e (p, h)
    | inr e ↦ rw e (h.0, All-insert_by P a xs p h.1)
  ]

  IsDistinct-insert_by :
      (a : A) (xs : List A) → ¬ In a xs → IsDistinct xs → IsDistinct (insert_by a xs)
  unfolding insert_by
  IsDistinct-insert_by a [] n d = (n, tt)
  IsDistinct-insert_by a (x ∷ xs) n d = elim (Bool-cases (le a x)) [
    | inl e ↦ rw e (n, d)
    | inr e ↦ rw e (
      λ m. elim ((In-insert_by x a xs).0 m) [ inl p ↦ n (inl (sym p)) | inr r ↦ d.0 r ],
      IsDistinct-insert_by a xs (λ m. n (inr m)) d.1,
    )
  ]

  pub IsDistinct-sort_by : (xs : List A) → IsDistinct xs → IsDistinct (sort_by xs)
  unfolding sort_by
  IsDistinct-sort_by [] d = tt
  IsDistinct-sort_by (x ∷ xs) d =
      IsDistinct-insert_by x (sort_by xs) (λ m. d.0 ((In-sort_by x xs).0 m))
        (IsDistinct-sort_by xs d.1)

  module _ (total : (a b : A) → le a b ≡ false → le b a ≡ true)
      (trans : (a b c : A) → le a b ≡ true → le b c ≡ true → le a c ≡ true) where
    All-below :
        (a x : A) (xs : List A)
        → le a x ≡ true
        → All (λ y. le x y ≡ true) xs
        → All (λ y. le a y ≡ true) xs
    All-below a x [] e h = tt
    All-below a x (y ∷ ys) e h = (trans a x y e h.0, All-below a x ys e h.1)

    insert_by-IsSortedBy : (a : A) (xs : List A) → IsSortedBy xs → IsSortedBy (insert_by a xs)
    unfolding insert_by
    insert_by-IsSortedBy a [] h = (tt, tt)
    insert_by-IsSortedBy a (x ∷ xs) h = elim (Bool-cases (le a x)) [
      | inl e ↦ rw e ((e, All-below a x xs e h.0), h)
      | inr e ↦
          rw e (
            All-insert_by (λ y. le x y ≡ true) a xs (total a x e) h.0,
            insert_by-IsSortedBy a xs h.1,
          )
    ]

    pub sort_by-IsSortedBy : (xs : List A) → IsSortedBy (sort_by xs)
    unfolding sort_by
    sort_by-IsSortedBy [] = tt
    sort_by-IsSortedBy (x ∷ xs) = insert_by-IsSortedBy x (sort_by xs) (sort_by-IsSortedBy xs)
