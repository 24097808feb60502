-- ===== src/Discovery/Keeps.antt =====
-- discovery.rs, `insert_entry`: what one file adds, and that what every file keeps, a scan keeps.
use forksan.Prelude.{
  ℕ, zero, suc, ◌+◌, ◌≡◌, ◌⊎◌, refl, Bool, true, false, List, [], ◌∷◌, ◌++◌, Option, none, some,
  Text, codes, inl, inr, Bool-cases, if◌then◌else◌, ltb, find, text_eq, ◌==◌, In,
}
use mathlib.Core.List.{reverse}
use forksan.Prelude.{starts_with, strip_prefix, In-sort_by, text_leb}
use forksan.FileSystem.{FileSystem, join_path}
use forksan.Frontmatter.{ForkParse, ParsedFork, fork, not_fork, invalid}
use forksan.Frontmatter.File.{RawFork, parse_fork_file}
use forksan.Discovery.{
  ForkEntry, Found, warn, named, push_fork, insert_parse, insert_read, insert_entry, insert_bare,
  scan_item, scan_items, scan_names, scan_forks_dir, scan_fuel, and_then, scan_roots, none_yet,
  or_nothing,
}

module _ (fs : FileSystem) (from_str : Text → Option RawFork) where
  -- The entry is the parse of the file that it names.
  abbrev pub IsParsed : ForkEntry → Type 0
  IsParsed e =
      (content : Text) × (fs.read_to_string e.path ≡ some content)
      × (parse_fork_file from_str e.name content ≡ fork e.parsed)

  -- What is reached from a directory through the names that its folders list.
  pub data IsBelow (root : Text) : Text → Type 0 where
    here : IsBelow root root
    listed :
        (dir name : Text) (names : List Text)
        → IsBelow root dir
        → fs.read_dir dir ≡ some names
        → In name names
        → IsBelow root (join_path dir name)

  -- A fork's file is no folder and is reached from the root, or it is the `FORK.md` of a folder that is.
  abbrev pub IsForkFile : Text → Text → Type 0
  IsForkFile root path =
      (IsBelow root path × (fs.is_dir path ≡ false))
      ⊎ ((dir : Text) × IsBelow root dir
          × (path ≡ join_path dir (codes "FORK.md"))
          × (fs.is_file path ≡ true))

  -- What one file adds to the entries: nothing, or one entry with a new name.
  abbrev pub Adds : Text → List ForkEntry → List ForkEntry → Type 0
  Adds root before after =
      (after ≡ before)
      ⊎ ((e : ForkEntry) × (after ≡ before ++ (e ∷ []))
          × (find (named e.name) before ≡ none)
          × (e.root ≡ root)
          × IsForkFile root e.path
          × IsParsed e)

  push_fork-Adds :
      (name path root content : Text) (parsed : ParsedFork) (existing : Option ForkEntry)
      (found : Found)
      → IsForkFile root path
      → find (named name) found.entries ≡ existing
      → fs.read_to_string path ≡ some content
      → parse_fork_file from_str name content ≡ fork parsed
      → Adds root found.entries (push_fork name path root parsed existing found).entries
  unfolding push_fork warn
  push_fork-Adds name path root content parsed none found b e r p =
      inr (_, refl, e, refl, b, (content, r, p))
  push_fork-Adds name path root content parsed (some existing) found b e r p =
      inl (elim (Bool-cases (existing.path == path)) [ inl q ↦ rw q refl | inr q ↦ rw q refl ])

  insert_parse-Adds :
      (name path root content : Text) (parse : ForkParse) (found : Found)
      → IsForkFile root path
      → fs.read_to_string path ≡ some content
      → parse_fork_file from_str name content ≡ parse
      → Adds root found.entries (insert_parse name path root parse found).entries
  unfolding insert_parse warn
  insert_parse-Adds name path root content (fork parsed) found b r p =
      push_fork-Adds name path root content parsed _ found b refl r p
  insert_parse-Adds name path root content (not_fork true) found b r p = inl refl
  insert_parse-Adds name path root content (not_fork false) found b r p = inl refl
  insert_parse-Adds name path root content invalid found b r p = inl refl

  insert_read-Adds :
      (name path root : Text) (content : Option Text) (found : Found)
      → IsForkFile root path
      → fs.read_to_string path ≡ content
      → Adds root found.entries (insert_read fs from_str name path root content found).entries
  unfolding insert_read warn
  insert_read-Adds name path root none found b r = inl refl
  insert_read-Adds name path root (some content) found b r =
      insert_parse-Adds name path root content _ found b r refl

  insert_entry-Adds :
      (name path root : Text) (found : Found)
      → IsForkFile root path
      → Adds root found.entries (insert_entry fs from_str name path root found).entries
  unfolding insert_entry
  insert_entry-Adds name path root found b = insert_read-Adds name path root _ found b refl

  module _ (P : List ForkEntry → Type 0) where
    -- A result, if there is one, has `P`.
    abbrev pub Holds : Option Found → Type 0
    Holds none = Unit {0}
    Holds (some r) = P r.entries

    if-Holds :
        (c : Bool) (a b : Option Found)
        → (c ≡ true → Holds a)
        → (c ≡ false → Holds b)
        → Holds (if c then a else b)
    if-Holds true a b p q = p refl
    if-Holds false a b p q = q refl

    and_then-Holds :
        (o : Option Found) (k : Found → Option Found)
        → Holds o
        → ((s : Found) → P s.entries → Holds (k s))
        → Holds (and_then o k)
    and_then-Holds none k p q = tt
    and_then-Holds (some s) k p q = q s p

  -- What every file that is inserted keeps, a scan keeps.
  module _ (P : List ForkEntry → Type 0) (root : Text)
      (keep : (before after : List ForkEntry) → Adds root before after → P before → P after) where
    insert_entry-keeps :
        (name path : Text) (found : Found)
        → IsForkFile root path
        → P found.entries
        → P (insert_entry fs from_str name path root found).entries
    insert_entry-keeps name path found b =
        keep found.entries _ (insert_entry-Adds name path root found b)

    insert_bare-keeps :
        (path : Text) (stem : Option Text) (found : Found)
        → IsForkFile root path
        → P found.entries
        → P (insert_bare fs from_str path root stem found).entries
    unfolding insert_bare
    insert_bare-keeps path none found b h = h
    insert_bare-keeps path (some []) found b h = h
    insert_bare-keeps path (some (c ∷ stem)) found b h =
        insert_entry-keeps (reverse (c ∷ stem)) path found b h

    module _ (f : Text → Found → Option Found)
        (deeper : (path : Text) (s : Found) → IsBelow root path → P s.entries → Holds P (f path s))
        (dir : Text) (at : IsBelow root dir) where
      scan_item-keeps :
          (names : List Text) (item : Text) (found : Found)
          → fs.read_dir dir ≡ some names
          → In item names
          → P found.entries
          → Holds P (scan_item fs from_str f dir root item found)
      unfolding scan_item
      scan_item-keeps names item found r m h =
          let path = join_path dir item in
          let fork_md = join_path path (codes "FORK.md") in
          let folder = some (insert_entry fs from_str item fork_md root found) in
          let stem = strip_prefix (reverse (codes ".md")) (reverse item) in
          let file = some (insert_bare fs from_str path root stem found) in
          let below = listed dir item names at r m in
          if-Holds P (starts_with item (codes ".")) (some found) _ (λ e. h)
            (λ e.
              if-Holds P (fs.is_dir path) (if fs.is_file fork_md then folder else f path found) file
                (λ d.
                  if-Holds P (fs.is_file fork_md) folder (f path found)
                    (λ g. insert_entry-keeps item fork_md found (inr (path, below, refl, g)) h)
                    (λ g. deeper path found below h))
                (λ d. insert_bare-keeps path stem found (inl (below, d)) h))

      scan_items-keeps :
          (names items : List Text) (found : Found)
          → fs.read_dir dir ≡ some names
          → ((x : Text) → In x items → In x names)
          → P found.entries
          → Holds P (scan_items fs from_str f dir root items found)
      unfolding scan_items
      scan_items-keeps names [] found r m h = h
      scan_items-keeps names (item ∷ items) found r m h =
          and_then-Holds P _ _ (scan_item-keeps names item found r (m item (inl refl)) h)
            (λ s q. scan_items-keeps names items s r (λ x k. m x (inr k)) q)

      scan_names-keeps :
          (names : Option (List Text)) (found : Found)
          → fs.read_dir dir ≡ names
          → P found.entries
          → Holds P (scan_names fs from_str f dir root names found)
      unfolding scan_names
      scan_names-keeps none found r h = h
      scan_names-keeps (some names) found r h =
          scan_items-keeps names _ found r (λ x k. (In-sort_by text_leb x names).0 k) h

    pub scan_forks_dir-keeps :
        (fuel : ℕ) (dir : Text) (depth : ℕ) (found : Found)
        → IsBelow root dir
        → P found.entries
        → Holds P (scan_forks_dir fs from_str fuel dir root depth found)
    unfolding scan_forks_dir
    scan_forks_dir-keeps zero dir depth found at h = tt
    scan_forks_dir-keeps (suc fuel) dir depth found at h =
        if-Holds P (ltb 8 depth) (some found) _ (λ e. h)
          (λ e.
            scan_names-keeps _ (λ path s b q. scan_forks_dir-keeps fuel path (depth + 1) s b q) dir
              at _ found refl h)

  pub scan_roots-keeps :
      (P : List ForkEntry → Type 0) (roots : List Text) (found : Found)
      → ((root : Text) (before after : List ForkEntry)
          → In root roots
          → Adds root before after
          → P before
          → P after)
      → P found.entries
      → Holds P (scan_roots fs from_str roots found)
  unfolding scan_roots
  scan_roots-keeps P [] found keep h = h
  scan_roots-keeps P (root ∷ roots) found keep h =
      and_then-Holds P _ _
        (scan_forks_dir-keeps P root (λ before after a q. keep root before after (inl refl) a q)
          scan_fuel root 0 found here h)
        (λ s q.
          scan_roots-keeps P roots s (λ r before after m a p. keep r before after (inr m) a p) q)

  -- The forks of all the roots, in the order of their discovery.
  pub entries_of-keeps :
      (P : List ForkEntry → Type 0) (roots : List Text)
      → ((root : Text) (before after : List ForkEntry)
          → In root roots
          → Adds root before after
          → P before
          → P after)
      → P []
      → P (or_nothing (scan_roots fs from_str roots none_yet)).entries
  unfolding or_nothing
  entries_of-keeps P roots keep h =
      go (scan_roots fs from_str roots none_yet) (scan_roots-keeps P roots none_yet keep h)
    where
      go : (o : Option Found) → Holds P o → P (or_nothing o).entries
      go none q = h
      go (some r) q = q
