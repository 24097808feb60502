-- ===== src/Sql/Keys.antt =====
-- Primary keys: `key` is the key of a row, and the statements keep it unique.
use forksan.Prelude.{
  ◌≡◌, ◌∙◌, refl, ap, sym, Bool, true, false, not, List, [], ◌∷◌, ◌++◌, map, any, filter, In,
  In-any, In-filter, In-map, map-In, IsDistinct, IsDistinct-snoc, Bool-cases, inl, inr, subst,
}
use forksan.Sql.{update_where, delete_where, insert_or_ignore, insert_or_replace, upsert}
use forksan.Sql.Laws.{any-delete_where}

module _ {R K : Type 0} (key : R → K) where
  abbrev pub HasUnique : List R → Type 0
  HasUnique rs = IsDistinct (map key rs)

  -- Two rows of a table with the same key are one.
  pub HasUnique-same :
      (rs : List R) → HasUnique rs → (x y : R) → In x rs → In y rs → key x ≡ key y → x ≡ y
  HasUnique-same [] u x y m n e = absurd m
  HasUnique-same (r ∷ rs) u x y (inl p) (inl q) e = p ∙ sym q
  HasUnique-same (r ∷ rs) u x y (inl p) (inr n) e =
      absurd (u.0 (subst (λ k. In k (map key rs)) (sym e ∙ ap key p) (In-map key y rs n)))
  HasUnique-same (r ∷ rs) u x y (inr m) (inl q) e =
      absurd (u.0 (subst (λ k. In k (map key rs)) (e ∙ ap key q) (In-map key x rs m)))
  HasUnique-same (r ∷ rs) u x y (inr m) (inr n) e = HasUnique-same rs u.1 x y m n e

  map-append : (xs ys : List R) → map key (xs ++ ys) ≡ map key xs ++ map key ys
  map-append [] ys = refl
  map-append (x ∷ xs) ys = ap (λ l. key x ∷ l) (map-append xs ys)

  map-update_where :
      (p : R → Bool) (f : R → R) (rs : List R)
      → ((r : R) → key (f r) ≡ key r)
      → map key (update_where p f rs) ≡ map key rs
  unfolding update_where
  map-update_where p f [] h = refl
  map-update_where p f (r ∷ rs) h = elim (Bool-cases (p r)) [
    | inl e ↦ rw (e, h r, map-update_where p f rs h)
    | inr e ↦ rw (e, map-update_where p f rs h)
  ]

  pub update_where-HasUnique :
      (p : R → Bool) (f : R → R) (rs : List R)
      → ((r : R) → key (f r) ≡ key r)
      → HasUnique rs
      → HasUnique (update_where p f rs)
  update_where-HasUnique p f rs h u = subst IsDistinct (sym (map-update_where p f rs h)) u

  filter-HasUnique : (p : R → Bool) (rs : List R) → HasUnique rs → HasUnique (filter p rs)
  unfolding filter
  filter-HasUnique p [] u = tt
  filter-HasUnique p (r ∷ rs) u = elim (Bool-cases (p r)) [
    | inl e ↦ rw e (
      λ m.
          let (x, n, q) = map-In key (key r) (filter p rs) m in
          u.0 (subst (λ k. In k (map key rs)) (sym q) (In-map key x rs ((In-filter p x rs).0 n).0)),
      filter-HasUnique p rs u.1,
    )
    | inr e ↦ rw e (filter-HasUnique p rs u.1)
  ]

  pub delete_where-HasUnique :
      (p : R → Bool) (rs : List R) → HasUnique rs → HasUnique (delete_where p rs)
  unfolding delete_where
  delete_where-HasUnique p rs u = filter-HasUnique (λ r. not (p r)) rs u

  -- A row may be added whose key no row has.
  snoc-HasUnique :
      (p : R → Bool) (r : R) (rs : List R)
      → ((x : R) → key x ≡ key r → p x ≡ true)
      → any p rs ≡ false
      → HasUnique rs
      → HasUnique (rs ++ (r ∷ []))
  snoc-HasUnique p r rs tests fresh u = rw (map-append rs (r ∷ [])) (
      IsDistinct-snoc (map key rs) (key r)
        (λ m.
          let (x, n, q) = map-In key (key r) rs m in cc (fresh, In-any p rs x n (tests x (sym q))))
        u)

  pub insert_or_ignore-HasUnique :
      (p : R → Bool) (r : R) (rs : List R)
      → ((x : R) → key x ≡ key r → p x ≡ true)
      → HasUnique rs
      → HasUnique (insert_or_ignore p r rs).0
  unfolding insert_or_ignore
  insert_or_ignore-HasUnique p r rs tests u = elim (Bool-cases (any p rs)) [
    | inl old ↦ rw old u
    | inr fresh ↦ rw fresh (snoc-HasUnique p r rs tests fresh u)
  ]

  pub upsert-HasUnique :
      (p : R → Bool) (r : R) (f : R → R) (rs : List R)
      → ((x : R) → key x ≡ key r → p x ≡ true)
      → ((x : R) → key (f x) ≡ key x)
      → HasUnique rs
      → HasUnique (upsert p r f rs)
  unfolding upsert
  upsert-HasUnique p r f rs tests h u = elim (Bool-cases (any p rs)) [
    | inl old ↦ rw old (update_where-HasUnique p f rs h u)
    | inr fresh ↦ rw fresh (snoc-HasUnique p r rs tests fresh u)
  ]

  pub insert_or_replace-HasUnique :
      (p : R → Bool) (r : R) (rs : List R)
      → ((x : R) → key x ≡ key r → p x ≡ true)
      → HasUnique rs
      → HasUnique (insert_or_replace p r rs)
  unfolding insert_or_replace
  insert_or_replace-HasUnique p r rs tests u =
      snoc-HasUnique p r (delete_where p rs) tests (any-delete_where p p rs (λ x e. e))
        (delete_where-HasUnique p rs u)
