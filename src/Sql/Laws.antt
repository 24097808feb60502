-- ===== src/Sql/Laws.antt =====
-- What a query sees after a statement.
use forksan.Prelude.{
  ◌≡◌, refl, Bool, true, false, ◌||◌, List, [], ◌∷◌, ◌++◌, Option, none, some, any, find, filter,
  ltb, arith, Bool-cases, inl, inr,
}
use forksan.Sql.{update_where, delete_where, upsert, count_where}

module _ {R : Type 0} where
  pub any-append : (q : R → Bool) (xs ys : List R) → any q (xs ++ ys) ≡ (any q xs || any q ys)
  unfolding any
  any-append q [] ys = refl
  any-append q (x ∷ xs) ys = ground (arith, any-append q xs ys)

  -- COUNT(*) > 0
  pub count_where-any : (p : R → Bool) (rs : List R) → ltb 0 (count_where p rs) ≡ any p rs
  unfolding count_where any
  count_where-any p [] = refl
  count_where-any p (r ∷ rs) = ground (arith, count_where-any p rs)

  -- An update is not seen by a query whose outcome it does not change.
  pub any-update_where :
      (p : R → Bool) (f : R → R) (q : R → Bool) (rs : List R)
      → ((r : R) → p r ≡ true → q (f r) ≡ q r)
      → any q (update_where p f rs) ≡ any q rs
  unfolding any update_where
  any-update_where p f q [] h = refl
  any-update_where p f q (r ∷ rs) h = ground (arith, h r, any-update_where p f q rs h)

  pub filter-update_where :
      (p : R → Bool) (f : R → R) (q : R → Bool) (rs : List R)
      → ((r : R) → q r ≡ true → p r ≡ false)
      → ((r : R) → p r ≡ true → q (f r) ≡ false)
      → filter q (update_where p f rs) ≡ filter q rs
  unfolding filter update_where
  filter-update_where p f q [] h k = refl
  filter-update_where p f q (r ∷ rs) h k =
      ground (arith, h r, k r, filter-update_where p f q rs h k)

  pub find-update_where :
      (p : R → Bool) (f : R → R) (q : R → Bool) (rs : List R)
      → ((r : R) → p r ≡ true → q r ≡ false)
      → ((r : R) → p r ≡ true → q (f r) ≡ false)
      → find q (update_where p f rs) ≡ find q rs
  unfolding find update_where
  find-update_where p f q [] h k = refl
  find-update_where p f q (r ∷ rs) h k = ground (arith, h r, k r, find-update_where p f q rs h k)

  -- What is deleted is gone, and the rest is still there.
  pub any-delete_where :
      (p q : R → Bool) (rs : List R)
      → ((r : R) → q r ≡ true → p r ≡ true)
      → any q (delete_where p rs) ≡ false
  unfolding any delete_where filter
  any-delete_where p q [] h = refl
  any-delete_where p q (r ∷ rs) h = ground (arith, h r, any-delete_where p q rs h)

  pub filter-delete_where :
      (p q : R → Bool) (rs : List R)
      → ((r : R) → q r ≡ true → p r ≡ true)
      → filter q (delete_where p rs) ≡ []
  unfolding delete_where filter
  filter-delete_where p q [] h = refl
  filter-delete_where p q (r ∷ rs) h = ground (arith, h r, filter-delete_where p q rs h)

  pub any-delete_where_other :
      (p q : R → Bool) (rs : List R)
      → ((r : R) → q r ≡ true → p r ≡ false)
      → any q (delete_where p rs) ≡ any q rs
  unfolding any delete_where filter
  any-delete_where_other p q [] h = refl
  any-delete_where_other p q (r ∷ rs) h = ground (arith, h r, any-delete_where_other p q rs h)

  pub filter-delete_where_other :
      (p q : R → Bool) (rs : List R)
      → ((r : R) → q r ≡ true → p r ≡ false)
      → filter q (delete_where p rs) ≡ filter q rs
  unfolding delete_where filter
  filter-delete_where_other p q [] h = refl
  filter-delete_where_other p q (r ∷ rs) h = ground (arith, h r, filter-delete_where_other p q rs h)

  -- The row of a key after an update of that key's rows.
  abbrev pub updated : (R → R) → Option R → Option R
  updated f none = none
  updated f (some r) = some (f r)

  pub find-update_where_self :
      (p : R → Bool) (f : R → R) (rs : List R)
      → ((r : R) → p r ≡ true → p (f r) ≡ true)
      → find p (update_where p f rs) ≡ updated f (find p rs)
  unfolding find update_where
  find-update_where_self p f [] h = refl
  find-update_where_self p f (r ∷ rs) h = ground (arith, h r, find-update_where_self p f rs h)

  find-any : (p : R → Bool) (rs : List R) → any p rs ≡ false → find p rs ≡ none
  unfolding find any
  find-any p [] h = refl
  find-any p (r ∷ rs) h = ground (arith, find-any p rs)

  any-find : (p : R → Bool) (rs : List R) → any p rs ≡ true → (r : R) × (find p rs ≡ some r)
  unfolding find any
  any-find p [] h = cc
  any-find p (r ∷ rs) h = elim (Bool-cases (p r)) [
    | inl e ↦ (r, rw e)
    | inr e ↦ let (x, q) = any-find p rs (ground arith) in (x, rw e q)
  ]

  find-append :
      (p : R → Bool) (rs : List R) (r : R)
      → any p rs ≡ false
      → p r ≡ true
      → find p (rs ++ (r ∷ [])) ≡ some r
  unfolding find any
  find-append p [] r h e = rw e
  find-append p (x ∷ rs) r h e = ground (arith, find-append p rs r)

  find-append_other :
      (p : R → Bool) (rs : List R) (r : R) → p r ≡ false → find p (rs ++ (r ∷ [])) ≡ find p rs
  unfolding find
  find-append_other p [] r e = rw e
  find-append_other p (x ∷ rs) r e = ground (arith, find-append_other p rs r e)

  abbrev pub or_new : R → Option R → Option R
  or_new r none = some r
  or_new r (some x) = some x

  -- An upsert updates the row of its key, or inserts one.
  pub find-upsert :
      (p : R → Bool) (new : R) (f : R → R) (rs : List R)
      → p new ≡ true
      → ((r : R) → p r ≡ true → p (f r) ≡ true)
      → find p (upsert p new f rs) ≡ or_new new (updated f (find p rs))
  unfolding upsert
  find-upsert p new f rs e h = elim (Bool-cases (any p rs)) [
    | inl old ↦ let (x, q) = any-find p rs old in rw (old, find-update_where_self p f rs h, q)
    | inr none_yet ↦ rw (none_yet, find-append p rs new none_yet e, find-any p rs none_yet)
  ]

  pub find-upsert_other :
      (p q : R → Bool) (new : R) (f : R → R) (rs : List R)
      → q new ≡ false
      → ((r : R) → p r ≡ true → q r ≡ false)
      → ((r : R) → p r ≡ true → q (f r) ≡ false)
      → find q (upsert p new f rs) ≡ find q rs
  unfolding upsert
  find-upsert_other p q new f rs e h k = elim (Bool-cases (any p rs)) [
    | inl old ↦ rw old (find-update_where p f q rs h k)
    | inr none_yet ↦ rw none_yet (find-append_other q rs new e)
  ]
