-- ===== src/Sql.antt =====
-- The SQL statements that crates/autofork-core/src/store.rs issues, over a table as the list of its
-- rows in insertion order. A key is the Boolean test whether a row has the primary key at hand.
pub mod Laws
pub mod Keys
use forksan.Prelude.{
  ℕ, zero, suc, ◌+◌, ◌≡◌, refl, ap, ◌∙◌, Bool, true, false, not, ◌&&◌, List, [], ◌∷◌, ◌++◌, Option,
  none, some, if◌then◌else◌, any, find, filter, map, arith, Bool-cases, inl, inr,
}

module _ {R : Type 0} where
  -- UPDATE … WHERE
  unfoldable pub update_where : (R → Bool) → (R → R) → List R → List R
  update_where p f [] = []
  update_where p f (r ∷ rs) = (if p r then f r else r) ∷ update_where p f rs

  -- DELETE … WHERE
  unfoldable pub delete_where : (R → Bool) → List R → List R
  delete_where p rs = filter (λ r. not (p r)) rs

  -- INSERT OR IGNORE: the table, and whether a row was inserted.
  unfoldable pub insert_or_ignore : (R → Bool) → R → List R → List R × Bool
  insert_or_ignore key r rs = if any key rs then (rs, false) else (rs ++ (r ∷ []), true)

  -- INSERT OR REPLACE
  unfoldable pub insert_or_replace : (R → Bool) → R → List R → List R
  unfolding delete_where
  insert_or_replace key r rs = delete_where key rs ++ (r ∷ [])

  -- INSERT … ON CONFLICT DO UPDATE
  unfoldable pub upsert : (R → Bool) → R → (R → R) → List R → List R
  unfolding update_where
  upsert key r f rs = if any key rs then update_where key f rs else rs ++ (r ∷ [])

  -- SELECT COUNT(*) … WHERE
  unfoldable pub count_where : (R → Bool) → List R → ℕ
  count_where p [] = 0
  count_where p (r ∷ rs) = (if p r then 1 else 0) + count_where p rs
