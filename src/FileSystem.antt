-- ===== src/FileSystem.antt =====
-- What the program reads of the file system, and the `Path` methods on texts that are paths.
use forksan.Prelude.{
  Bool, not, ◌||◌, List, [], ◌∷◌, ◌++◌, map, filter, Option, none, some, Text, codes, split, join,
  is_empty, starts_with, text_eq, ◌==◌, if◌then◌else◌,
}
use mathlib.Core.List.{reverse}

-- The calls of `std::fs` and `Path` that answer from the disk. `read_error` is the message of a read
-- that fails; `read_dir` gives the names of the entries that can be read.
pub record FileSystem : Type 0 where
  pub canonicalize : Text → Option Text
  pub is_dir : Text → Bool
  pub is_file : Text → Bool
  pub exists : Text → Bool
  pub read_dir : Text → Option (List Text)
  pub read_to_string : Text → Option Text
  pub read_error : Text → Text

unfoldable pub is_absolute : Text → Bool
is_absolute p = starts_with p (codes "/")

-- `dir.join(p)`: an absolute `p` replaces the directory.
unfoldable pub join_path : Text → Text → Text
unfolding is_absolute
join_path dir p =
    if is_absolute p
    then p
    else if is_empty dir || starts_with (reverse dir) (codes "/")
    then dir ++ p
    else dir ++ (codes "/" ++ p)

is_component : Text → Bool
is_component c = not (is_empty c || c == codes ".")

-- A `.` counts only at the head of a relative path.
leading : List Text → List Text
leading [] = []
leading (c ∷ cs) = if c == codes "." then c ∷ [] else []

components : Text → List Text
unfolding is_component leading
components p = let pieces = split b'/' p in leading pieces ++ filter is_component pieces

-- The prefixes of a list from the whole to the empty one.
prefixes_of {ℓ} : {A : Type ℓ} → List A → List (List A)
prefixes_of [] = [] ∷ []
prefixes_of (x ∷ xs) = map (λ p. x ∷ p) (prefixes_of xs) ++ ([] ∷ [])

-- What the loops over `parent` visit, from the path itself to the root or to the empty path. An outer
-- path is written with single separators, which `Path` does not tell apart.
unfoldable pub ancestors : Text → List Text
unfolding components prefixes_of
ancestors p =
    let root = if is_absolute p then codes "/" else [] in
    p ∷ rest_of (map (λ cs. root ++ join (codes "/") cs) (prefixes_of (components p)))
  where
    rest_of : List Text → List Text
    rest_of [] = []
    rest_of (x ∷ xs) = xs

-- `path.canonicalize().unwrap_or_else(|_| path.to_path_buf())`
unfoldable pub canonical : FileSystem → Text → Text
canonical fs p = elim (fs.canonicalize p) [ none ↦ p | some q ↦ q ]
