-- ===== src/Discovery/Scan.antt =====
-- discovery.rs, `scan_forks_dir`: the scan ends on every file system.
use forksan.Prelude.{
  ℕ, zero, suc, ◌+◌, ◌≤◌, ◌<◌, ◌≡◌, refl, ◌∙◌, ap, Bool, true, false, List, [], ◌∷◌, Option, none,
  some, Text, codes, arith, inl, inr, Bool-cases, if◌then◌else◌, ltb, starts_with, strip_prefix,
}
use mathlib.Core.List.{reverse}
use forksan.FileSystem.{FileSystem, join_path}
use forksan.Frontmatter.File.{RawFork}
use forksan.Discovery.{
  and_then, scan_names, Found, insert_entry, insert_bare, scan_item, scan_items, scan_forks_dir,
  scan_fuel, scan_roots,
}

abbrev pub Returns : Option Found → Type 0
Returns o = (r : Found) × (o ≡ some r)

if-Returns : (c : Bool) (a b : Option Found) → Returns a → Returns b → Returns (if c then a else b)
if-Returns true a b p q = p
if-Returns false a b p q = q

and_then-Returns :
    (o : Option Found) (k : Found → Option Found)
    → Returns o
    → ((s : Found) → Returns (k s))
    → Returns (and_then o k)
and_then-Returns none k p q = cc p.1
and_then-Returns (some s) k p q = q s

pub and_then-cong :
    (o : Option Found) (j k : Found → Option Found)
    → ((s : Found) → j s ≡ k s)
    → and_then o j ≡ and_then o k
and_then-cong none j k h = refl
and_then-cong (some s) j k h = h s

module _ (fs : FileSystem) (from_str : Text → Option RawFork) where
  -- Where the scan of what lies deeper ends, so does the scan here.
  module _ (f : Text → Found → Option Found)
      (total : (path : Text) (s : Found) → Returns (f path s)) (dir root : Text) where
    scan_item-total :
        (item : Text) (found : Found) → Returns (scan_item fs from_str f dir root item found)
    unfolding scan_item
    scan_item-total item found =
        let path = join_path dir item in
        let fork_md = join_path path (codes "FORK.md") in
        let folder = some (insert_entry fs from_str item fork_md root found) in
        let file =
          insert_bare fs from_str path root (strip_prefix (reverse (codes ".md")) (reverse item))
            found in
        if-Returns (starts_with item (codes ".")) (some found) _ (found, refl)
          (if-Returns (fs.is_dir path) (if fs.is_file fork_md then folder else f path found)
            (some file)
            (if-Returns (fs.is_file fork_md) folder (f path found) (_, refl) (total path found))
            (file, refl))

    scan_items-total :
        (items : List Text) (found : Found)
        → Returns (scan_items fs from_str f dir root items found)
    unfolding scan_items
    scan_items-total [] found = (found, refl)
    scan_items-total (item ∷ items) found =
        and_then-Returns _ _ (scan_item-total item found) (λ s. scan_items-total items s)

    scan_names-total :
        (names : Option (List Text)) (found : Found)
        → Returns (scan_names fs from_str f dir root names found)
    unfolding scan_names
    scan_names-total none found = (found, refl)
    scan_names-total (some names) found = scan_items-total _ found

  -- Two scans of what lies deeper that give the same give the same here.
  module _ (f g : Text → Found → Option Found)
      (same : (path : Text) (s : Found) → f path s ≡ g path s) (dir root : Text) where
    scan_item-cong :
        (item : Text) (found : Found)
        → scan_item fs from_str f dir root item found ≡ scan_item fs from_str g dir root item found
    unfolding scan_item
    scan_item-cong item found = ground (arith, same (join_path dir item) found)

    scan_items-cong :
        (items : List Text) (found : Found)
        → scan_items fs from_str f dir root items found
          ≡ scan_items fs from_str g dir root items found
    unfolding scan_items
    scan_items-cong [] found = refl
    scan_items-cong (item ∷ items) found =
        ap (λ o. and_then o (λ s. scan_items fs from_str f dir root items s))
          (scan_item-cong item found)
        ∙ and_then-cong (scan_item fs from_str g dir root item found) _ _
            (λ s. scan_items-cong items s)

    scan_names-cong :
        (names : Option (List Text)) (found : Found)
        → scan_names fs from_str f dir root names found
          ≡ scan_names fs from_str g dir root names found
    unfolding scan_names
    scan_names-cong none found = refl
    scan_names-cong (some names) found = scan_items-cong _ found

  scan-total :
      (fuel : ℕ) (dir root : Text) (depth : ℕ) (found : Found)
      → 0 < fuel
      → 9 < depth + fuel
      → Returns (scan_forks_dir fs from_str fuel dir root depth found)
  unfolding scan_forks_dir
  scan-total zero dir root depth found p h = absurd (omega arith)
  scan-total (suc fuel) dir root depth found p h = elim (Bool-cases (ltb 8 depth)) [
    | inl deep ↦ (found, rw deep refl)
    | inr e ↦
        let (r, t) =
          scan_names-total _
            (λ path s. scan-total fuel path root (depth + 1) s (ground arith) (ground arith)) dir
            root (fs.read_dir dir) found in
        (r, rw e t)
  ]

  scan-fuel :
      (fuel more : ℕ) (dir root : Text) (depth : ℕ) (found : Found)
      → 0 < fuel
      → 9 < depth + fuel
      → 0 < more
      → 9 < depth + more
      → scan_forks_dir fs from_str fuel dir root depth found
        ≡ scan_forks_dir fs from_str more dir root depth found
  unfolding scan_forks_dir
  scan-fuel zero more dir root depth found p h q k = absurd (omega arith)
  scan-fuel (suc fuel) zero dir root depth found p h q k = absurd (omega arith)
  scan-fuel (suc fuel) (suc more) dir root depth found p h q k = elim (Bool-cases (ltb 8 depth)) [
    | inl deep ↦ rw deep refl
    | inr e ↦ rw e (
        scan_names-cong _ _
          (λ path s.
            scan-fuel fuel more path root (depth + 1) s (ground arith) (ground arith) (ground arith)
              (ground arith))
          dir root (fs.read_dir dir) found)
  ]

-- A scan ends, also where folders contain themselves through links: ten levels of recursion give a
-- result, whatever the file system answers, and any deeper recursion gives the same.
pub scan_forks_dir-terminates :
    (fs : FileSystem) (from_str : Text → Option RawFork) (fuel : ℕ) (dir root : Text)
    (found : Found)
    → scan_fuel ≤ fuel
    → (result : Found) × (scan_forks_dir fs from_str fuel dir root 0 found ≡ some result)
      × (scan_forks_dir fs from_str scan_fuel dir root 0 found ≡ some result)
scan_forks_dir-terminates fs from_str fuel dir root found h =
    let (result, e) =
      scan-total fs from_str scan_fuel dir root 0 found (omega arith) (omega arith) in
    (
      result,
      scan-fuel fs from_str fuel scan_fuel dir root 0 found (omega arith) (omega arith)
            (omega arith) (omega arith)
          ∙ e,
      e,
    )

-- So no root is left out of the discovery for want of fuel.
pub scan_roots-total :
    (fs : FileSystem) (from_str : Text → Option RawFork) (roots : List Text) (found : Found)
    → Returns (scan_roots fs from_str roots found)
unfolding scan_roots
scan_roots-total fs from_str [] found = (found, refl)
scan_roots-total fs from_str (root ∷ roots) found =
    and_then-Returns _ _
      (scan-total fs from_str scan_fuel root root 0 found (omega arith) (omega arith))
      (λ s. scan_roots-total fs from_str roots s)
