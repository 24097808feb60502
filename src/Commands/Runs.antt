-- ===== src/Commands/Runs.antt =====
-- What `autofork run` picks.
use forksan.Prelude.{
  ◌≡◌, ◌≢◌, ◌↔◌, refl, ap, ◌∙◌, sym, subst, Bool, true, false, List, [], ◌∷◌, map, filter, find,
  contains, Option, none, some, Text, codes, text_eq, ◌==◌, ==_sound, In, In-map, In-filter,
  IsDistinct, find-some, find-none, inl, inr, contains_text, Bool-cases,
}
use forksan.FileSystem.{FileSystem, join_path}
use forksan.Discovery.{ForkEntry, discover_forks, project_root}
use forksan.Discovery.Names.{discover_forks-IsDiscovered}
use forksan.Frontmatter.File.{RawFork}
use forksan.Wake.{build_wake_payload, wake_marker}
use forksan.Wake.Continuation.{build_wake_payload-wake_marker}
use forksan.Commands.{
  Printed, lines, refused, Picked, picked, nothing_fits, picked_one, picked_all, pick, paste,
  run_fork, manual, this_session,
}

-- A fork is asked for by its name, or else by a tag.
abbrev pub fits : Option Text → Option Text → ForkEntry → Bool
fits (some name) tag e = e.name == name
fits none (some tag) e = contains e.parsed.def.tags tag
fits none none e = false

-- Two members with the same name are the same.
same_name :
    (es : List ForkEntry) (a b : ForkEntry)
    → IsDistinct (map ForkEntry.name es)
    → In a es
    → In b es
    → a.name ≡ b.name
    → a ≡ b
same_name [] a b h m n e = absurd m
same_name (x ∷ es) a b (fresh, h) (inl p) (inl q) e = p ∙ sym q
same_name (x ∷ es) a b (fresh, h) (inl p) (inr n) e = absurd (
    fresh (
      subst (λ t. In t (map ForkEntry.name es)) (sym e ∙ ap ForkEntry.name p)
        (In-map ForkEntry.name b es n)))
same_name (x ∷ es) a b (fresh, h) (inr m) (inl q) e = absurd (
    fresh (
      subst (λ t. In t (map ForkEntry.name es)) (e ∙ ap ForkEntry.name q)
        (In-map ForkEntry.name a es m)))
same_name (x ∷ es) a b (fresh, h) (inr m) (inr n) e = same_name es a b h m n e

-- What was picked: exactly the forks that fit, and at least one; or none fits.
abbrev pub IsPicked : (ForkEntry → Bool) → List ForkEntry → Picked → Type 0
IsPicked p entries (nothing_fits message) = (e : ForkEntry) → In e entries → p e ≡ false
IsPicked p entries (picked es) =
    (es ≢ []) × ((e : ForkEntry) → In e es ↔ (In e entries × (p e ≡ true)))

pick-IsPicked :
    (name tag : Option Text) (cwd : Text) (entries : List ForkEntry)
    → IsDistinct (map ForkEntry.name entries)
    → IsPicked (fits name tag) entries (pick name tag cwd entries)
unfolding pick
pick-IsPicked (some name) tag cwd entries h = one (find (λ e. e.name == name) entries) refl
  where
    one :
        (o : Option ForkEntry)
        → find (λ e. e.name == name) entries ≡ o
        → IsPicked (λ e. e.name == name) entries (picked_one name cwd o)
    one none q = find-none (λ e. e.name == name) entries q
    one (some x) q =
        let (m, hit) = find-some (λ e. e.name == name) entries x q in
        (
          λ e. cc,
          λ e. (
            λ k. elim k [
              | inl same ↦ subst (λ z. In z entries × ((z.name == name) ≡ true)) (sym same) (m, hit)
              | inr f ↦ absurd f
            ],
            λ (n, fit). inl (
                same_name entries e x h n m
                  (==_sound e.name name fit ∙ sym (==_sound x.name name hit))),
          ),
        )
pick-IsPicked none (some tag) cwd entries h =
    all (filter (λ e. contains e.parsed.def.tags tag) entries) refl
  where
    all :
        (es : List ForkEntry)
        → filter (λ e. contains e.parsed.def.tags tag) entries ≡ es
        → IsPicked (λ e. contains e.parsed.def.tags tag) entries (picked_all tag cwd es)
    all [] q = λ e m. elim (Bool-cases (contains e.parsed.def.tags tag)) [
      | inl hit ↦
          absurd (
            subst (In e) q ((In-filter (λ z. contains z.parsed.def.tags tag) e entries).1 (m, hit)))
      | inr miss ↦ miss
    ]
    all (x ∷ es) q = (
      λ e. cc,
      λ e.
          subst (λ zs. In e zs ↔ (In e entries × (contains e.parsed.def.tags tag ≡ true))) q
            (In-filter (λ e. contains e.parsed.def.tags tag) e entries),
    )
pick-IsPicked none none cwd entries h = λ e m. refl

-- Among `entries`, the forks that fit are pasted, all of them and no other, in a wake of this session that
-- carries the marker; or none fits, and the command fails.
abbrev pub IsRun : Text → (ForkEntry → Bool) → List ForkEntry → Printed → Type 0
IsRun root p entries (refused message) = (e : ForkEntry) → In e entries → p e ≡ false
IsRun root p entries (lines ls) =
    (es : List ForkEntry) × ((e : ForkEntry) → In e es ↔ (In e entries × (p e ≡ true)))
    × In (build_wake_payload (this_session root) (map manual es) []) ls
    × (contains_text (build_wake_payload (this_session root) (map manual es) []) wake_marker ≡ true)

paste-IsRun :
    (root : Text) (p : ForkEntry → Bool) (entries : List ForkEntry) (choice : Picked)
    → IsPicked p entries choice
    → IsRun root p entries (paste root choice)
unfolding paste
paste-IsRun root p entries (nothing_fits message) h = h
paste-IsRun root p entries (picked []) (some_fit, h) = absurd (some_fit refl)
paste-IsRun root p entries (picked (e ∷ es)) (some_fit, h) = (
  e ∷ es,
  h,
  inr (inr (inr (inr (inl refl)))),
  build_wake_payload-wake_marker (this_session root) (manual e) (map manual es) [],
)

-- `autofork run` prints a wake for exactly the forks that the directory sees and that have the name, or,
-- without a name, the tag; it fails only if there is none. The wake carries the marker, so that pasting it
-- begins no new pause.
pub run_fork-IsRun :
    (fs : FileSystem) (from_str : Text → Option RawFork) (base cwd : Text) (name tag : Option Text)
    → IsRun
        (project_root fs cwd)
        (fits name tag)
        (discover_forks fs from_str cwd (some (join_path base (codes "forks")))).entries
        (run_fork fs from_str base cwd name tag)
unfolding run_fork
run_fork-IsRun fs from_str base cwd name tag =
    let forks = some (join_path base (codes "forks")) in
    paste-IsRun (project_root fs cwd) (fits name tag) (discover_forks fs from_str cwd forks).entries
      _ (pick-IsPicked name tag cwd _ (discover_forks-IsDiscovered fs from_str cwd forks).distinct)
