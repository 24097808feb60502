-- ===== src/Discovery/Project.antt =====
-- crates/autofork-core/src/project.rs: which directory is the project's root.
use forksan.Prelude.{
  ◌≡◌, refl, ap, Bool, true, false, List, [], ◌∷◌, ◌++◌, Option, none, some, Text, codes, ◌⊎◌, inl,
  inr, Bool-cases, find, All,
}
use forksan.FileSystem.{FileSystem, join_path, canonical, ancestors}
use forksan.Discovery.{nearest_of, project_root}

-- The first of the directories that the test holds of.
abbrev pub IsNearest : (Text → Bool) → List Text → Text → Type 0
IsNearest p ds d =
    (before : List Text) × (after : List Text) × (ds ≡ before ++ (d ∷ after))
    × (p d ≡ true)
    × All (λ x. p x ≡ false) before

find-IsNearest :
    (p : Text → Bool) (ds : List Text) (d : Text) → find p ds ≡ some d → IsNearest p ds d
unfolding find
find-IsNearest p [] d h = cc
find-IsNearest p (x ∷ ds) d h = elim (Bool-cases (p x)) [
  | inl e ↦
      let same : x ≡ d = cc ((rw e at h)) in ([], ds, ap (λ y. y ∷ ds) same, rw (← same) e, tt)
  | inr e ↦
      let (before, after, q, t, a) = find-IsNearest p ds d (rw e at h) in
      (x ∷ before, after, ap (λ t. x ∷ t) q, t, (e, a))
]

find-none : (p : Text → Bool) (ds : List Text) → find p ds ≡ none → All (λ x. p x ≡ false) ds
unfolding find
find-none p [] h = tt
find-none p (x ∷ ds) h = elim (Bool-cases (p x)) [
  | inl e ↦ cc ((rw e at h))
  | inr e ↦ (e, find-none p ds (rw e at h))
]

abbrev pub has_autofork : FileSystem → Text → Bool
has_autofork fs d = fs.is_dir (join_path d (codes ".autofork"))

abbrev pub has_git : FileSystem → Text → Bool
has_git fs d = fs.exists (join_path d (codes ".git"))

abbrev pub IsRoot : FileSystem → Text → Text → Type 0
IsRoot fs start root =
    IsNearest (has_autofork fs) (ancestors start) root
    ⊎ (All (λ d. has_autofork fs d ≡ false) (ancestors start)
        × (IsNearest (has_git fs) (ancestors start) root
            ⊎ (All (λ d. has_git fs d ≡ false) (ancestors start) × (root ≡ start))))

nearest_of-IsRoot :
    (fs : FileSystem) (start : Text) (fork_dir git : Option Text)
    → find (has_autofork fs) (ancestors start) ≡ fork_dir
    → find (has_git fs) (ancestors start) ≡ git
    → IsRoot fs start (nearest_of fork_dir git start)
unfolding nearest_of
nearest_of-IsRoot fs start (some d) git e q =
    inl (find-IsNearest (has_autofork fs) (ancestors start) d e)
nearest_of-IsRoot fs start none (some d) e q =
    inr (find-none (has_autofork fs) _ e, inl (find-IsNearest (has_git fs) (ancestors start) d q))
nearest_of-IsRoot fs start none none e q =
    inr (find-none (has_autofork fs) _ e, inr (find-none (has_git fs) _ q, refl))

-- The project's root is the nearest ancestor of the canonical directory that holds an `.autofork`
-- directory, however near a `.git` is; only where there is none, the nearest with a `.git`; and where
-- there is neither, the directory itself.
pub project_root_lem :
    (fs : FileSystem) (cwd : Text) → IsRoot fs (canonical fs cwd) (project_root fs cwd)
unfolding project_root
project_root_lem fs cwd = nearest_of-IsRoot fs (canonical fs cwd) _ _ refl refl
