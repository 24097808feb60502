-- ===== src/Discovery.antt =====
-- crates/autofork-core/src/discovery.rs and project.rs: the forks that a directory sees, and its project.
pub mod Scan
pub mod Keeps
pub mod Names
pub mod Project
pub mod Tests
use mathlib.Core.List.{reverse}
use forksan.Prelude.{
  ℕ, zero, suc, Bool, true, false, not, ◌&&◌, List, [], ◌∷◌, ◌++◌, Option, none, some, Text, codes,
  filter, find, contains, is_empty, starts_with, strip_prefix, sort_by, text_leb, text_eq, ◌==◌,
  if◌then◌else◌, ltb, leb, ◌+◌,
}
use forksan.FileSystem.{FileSystem, join_path, canonical, ancestors}
use forksan.Frontmatter.{ForkParse, ParsedFork, fork, not_fork, invalid}
use forksan.Frontmatter.File.{RawFork, parse_fork_file}

abbrev pub max_fork_nesting_depth : ℕ
max_fork_nesting_depth = 8

pub record ForkEntry : Type 0 where
  pub name : Text
  pub path : Text
  pub root : Text
  pub parsed : ParsedFork

-- The two vectors that the scan fills, in the order in which they are filled.
pub record Found : Type 0 where
  pub entries : List ForkEntry
  pub warnings : List Text

unfoldable pub warn : Text → Found → Found
warn w found = record found { warnings = found.warnings ++ (w ∷ []) }

-- The loop over the ancestors of `fork_roots`.
unfoldable pub project_roots : FileSystem → List Text → List Text
project_roots fs [] = []
project_roots fs (d ∷ ds) =
    let candidate = join_path (join_path d (codes ".autofork")) (codes "forks") in
    let later = project_roots fs ds in if fs.is_dir candidate then candidate ∷ later else later

unfoldable pub with_user_root : FileSystem → Option Text → List Text → List Text
with_user_root fs none roots = roots
with_user_root fs (some user_root) roots =
    let user = canonical fs user_root in
    if fs.is_dir user && not (contains roots user) then roots ++ (user ∷ []) else roots

unfoldable pub fork_roots : FileSystem → Text → Option Text → List Text
unfolding project_roots with_user_root
fork_roots fs dir user_forks_root =
    with_user_root fs user_forks_root (project_roots fs (ancestors (canonical fs dir)))

read_failed : Text → Text → Text
read_failed path error = codes "failed to read " ++ (path ++ (codes ": " ++ error))

not_treated : Text → Text
not_treated path =
    path ++ codes " has fork-like frontmatter but no `fork: true` — not treated as a fork"

skipped : Text → Text → Text
skipped name path =
    codes "fork '"
    ++ (name ++ (codes "' at " ++ (path ++ codes " has invalid frontmatter YAML, skipped")))

shadowed : Text → Text → Text → Text
shadowed name path by =
    codes "fork '" ++ (name ++ (codes "' at " ++ (path ++ (codes " shadowed by " ++ by))))

unfoldable pub named : Text → ForkEntry → Bool
named name e = ForkEntry.name e == name

-- A real fork is pushed if its name is free, and else reported, unless it is the same file.
unfoldable pub push_fork : Text → Text → Text → ParsedFork → Option ForkEntry → Found → Found
unfolding warn shadowed
push_fork name path root parsed none found = record found {
  entries =
      found.entries ++ (record { name = name; path = path; root = root; parsed = parsed } ∷ []);
}
push_fork name path root parsed (some existing) found =
    if existing.path == path then found else warn (shadowed name path existing.path) found

-- Only real forks reserve a name.
unfoldable pub insert_parse : Text → Text → Text → ForkParse → Found → Found
unfolding warn not_treated skipped named
insert_parse name path root (fork parsed) found =
    push_fork name path root parsed (find (named name) found.entries) found
insert_parse name path root (not_fork true) found = warn (not_treated path) found
insert_parse name path root (not_fork false) found = found
insert_parse name path root invalid found = warn (skipped name path) found

-- The fuel that is enough for a scan from depth 0.
abbrev pub scan_fuel : ℕ
scan_fuel = 10

abbrev pub none_yet : Found
none_yet = record { entries = []; warnings = [] }

unfoldable pub or_nothing : Option Found → Found
or_nothing none = none_yet
or_nothing (some found) = found

abbrev pub and_then : Option Found → (Found → Option Found) → Option Found
and_then none k = none
and_then (some found) k = k found

-- The file system and `serde_yaml::from_str`, which all that follows reads.
module _ (fs : FileSystem) (from_str : Text → Option RawFork) where
  unfoldable pub insert_read : Text → Text → Text → Option Text → Found → Found
  unfolding warn read_failed
  insert_read name path root none found = warn (read_failed path (fs.read_error path)) found
  insert_read name path root (some content) found =
      insert_parse name path root (parse_fork_file from_str name content) found

  unfoldable pub insert_entry : Text → Text → Text → Found → Found
  unfolding insert_read
  insert_entry name path root found = insert_read name path root (fs.read_to_string path) found

  -- A bare file: `file_name.strip_suffix(".md")`, if something stands before it.
  unfoldable pub insert_bare : Text → Text → Option Text → Found → Found
  insert_bare path root none found = found
  insert_bare path root (some stem) found =
      if is_empty stem then found else insert_entry (reverse stem) path root found

  -- One item of the loop; `descend` scans the folders that are no forks themselves, and runs out of
  -- fuel or gives what is found then.
  unfoldable pub scan_item :
      (Text → Found → Option Found) → Text → Text → Text → Found → Option Found
  scan_item descend dir root file_name found =
      let path = join_path dir file_name in
      let fork_md = join_path path (codes "FORK.md") in
      if starts_with file_name (codes ".")
      then some found
      else if fs.is_dir path
      then (if fs.is_file fork_md
          then some (insert_entry file_name fork_md root found)
          else descend path found)
      else some
          (insert_bare path root (strip_prefix (reverse (codes ".md")) (reverse file_name)) found)

  unfoldable pub scan_items :
      (Text → Found → Option Found) → Text → Text → List Text → Found → Option Found
  scan_items descend dir root [] found = some found
  scan_items descend dir root (item ∷ items) found =
      and_then (scan_item descend dir root item found)
        (λ found'. scan_items descend dir root items found')

  -- A folder that cannot be read is passed over.
  unfoldable pub scan_names :
      (Text → Found → Option Found) → Text → Text → Option (List Text) → Found → Option Found
  scan_names descend dir root none found = some found
  scan_names descend dir root (some names) found =
      scan_items descend dir root (sort_by text_leb names) found

  -- The recursion takes fuel, since the file system may hold cycles; `none` says that it ran out.
  unfoldable pub scan_forks_dir : ℕ → Text → Text → ℕ → Found → Option Found
  scan_forks_dir zero dir root depth found = none
  scan_forks_dir (suc fuel) dir root depth found =
      if ltb max_fork_nesting_depth depth
      then some found
      else scan_names (λ path found'. scan_forks_dir fuel path root (depth + 1) found') dir root
          (fs.read_dir dir) found

  unfoldable pub scan_roots : List Text → Found → Option Found
  scan_roots [] found = some found
  scan_roots (root ∷ roots) found =
      and_then (scan_forks_dir scan_fuel root root 0 found) (λ found'. scan_roots roots found')

  unfoldable pub discover_forks : Text → Option Text → Found
  discover_forks dir user_forks_root =
      or_nothing (scan_roots (fork_roots fs dir user_forks_root) none_yet)

-- The nearest ancestor with an `.autofork` directory, else the nearest with a `.git`, else the directory.
nearest_of : Option Text → Option Text → Text → Text
nearest_of (some d) git start = d
nearest_of none (some d) start = d
nearest_of none none start = start

unfoldable pub project_root : FileSystem → Text → Text
unfolding nearest_of
project_root fs cwd =
    let start = canonical fs cwd in
    nearest_of (find (λ d. fs.is_dir (join_path d (codes ".autofork"))) (ancestors start))
      (find (λ d. fs.exists (join_path d (codes ".git"))) (ancestors start)) start
