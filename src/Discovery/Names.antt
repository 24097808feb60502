-- ===== src/Discovery/Names.antt =====
-- discovery.rs, `discover_forks`: which forks are found, and which one has a name.
use forksan.Prelude.{
  ◌≡◌, refl, sym, ◌∙◌, ap, subst, Bool, true, false, List, [], ◌∷◌, ◌++◌, Option, none, some, Text,
  append-nil, text_beq_iff, arith, inl, inr, Bool-cases, if◌then◌else◌, find, map, text_eq, ◌==◌,
  In, IsDistinct, All, IsDistinct-snoc, append_assoc,
}
use forksan.FileSystem.{FileSystem}
use forksan.Frontmatter.File.{RawFork}
use forksan.Discovery.{
  ForkEntry, Found, named, scan_roots, none_yet, fork_roots, with_user_root, or_nothing,
  discover_forks, and_then, scan_forks_dir, scan_fuel,
}
use forksan.Discovery.Keeps.{IsParsed, IsForkFile, Adds, Holds, scan_roots-keeps, entries_of-keeps}
use forksan.Discovery.Scan.{and_then-cong, scan_roots-total}

find-none :
    (name : Text) (es : List ForkEntry)
    → find (named name) es ≡ none
    → ¬ In name (map ForkEntry.name es)
unfolding find named
find-none name [] h m = m
find-none name (e ∷ es) h m = elim (Bool-cases (e.name == name)) [
  | inl q ↦ cc ((rw q at h))
  | inr q ↦ elim m [
    | inl here ↦ cc (q, (text_beq_iff e.name name).1 (sym here))
    | inr later ↦ find-none name es (rw q at h) later
  ]
]

All-snoc :
    (P : ForkEntry → Type 0) (es : List ForkEntry) (e : ForkEntry)
    → All P es
    → P e
    → All P (es ++ (e ∷ []))
All-snoc P [] e h p = (p, tt)
All-snoc P (x ∷ es) e h p = (h.0, All-snoc P es e h.1 p)

map-snoc :
    (es : List ForkEntry) (e : ForkEntry)
    → map ForkEntry.name (es ++ (e ∷ [])) ≡ map ForkEntry.name es ++ (e.name ∷ [])
map-snoc [] e = refl
map-snoc (x ∷ es) e = ap (λ t. x.name ∷ t) (map-snoc es e)

and_then_assoc :
    (o : Option Found) (j k : Found → Option Found)
    → and_then (and_then o j) k ≡ and_then o (λ s. and_then (j s) k)
and_then_assoc none j k = refl
and_then_assoc (some s) j k = refl

module _ (fs : FileSystem) (from_str : Text → Option RawFork) where
  -- No two entries have the same name, each is the parse of its file, and that file was found below the
  -- entry's root, which is one of the roots.
  pub record IsDiscovered (roots : List Text) (es : List ForkEntry) : Type 0 where
    pub distinct : IsDistinct (map ForkEntry.name es)
    pub parsed : All (IsParsed fs from_str) es
    pub rooted :
        All
          (λ e.
            In (ForkEntry.root e) roots
            × IsForkFile fs from_str (ForkEntry.root e) (ForkEntry.path e))
          es

  Adds-IsDiscovered :
      (roots : List Text) (root : Text) (before after : List ForkEntry)
      → In root roots
      → Adds fs from_str root before after
      → IsDiscovered roots before
      → IsDiscovered roots after
  Adds-IsDiscovered roots root before after m (inl q) d = subst (IsDiscovered roots) (sym q) d
  Adds-IsDiscovered roots root before after m (inr (e, q, free, at, place, p)) d =
      subst (IsDiscovered roots) (sym q) (record {
        distinct =
            subst IsDistinct (sym (map-snoc before e))
              (IsDistinct-snoc _ e.name (find-none e.name before free) d.distinct);
        parsed = All-snoc _ before e d.parsed p;
        rooted =
            All-snoc _ before e d.rooted
              (subst (λ r. In r roots × IsForkFile fs from_str r e.path) (sym at) (m, place));
      })

  abbrev entries_of : List Text → List ForkEntry
  entries_of roots = (or_nothing (scan_roots fs from_str roots none_yet)).entries

  -- The scan of more roots adds entries behind those that are there.
  abbrev Extends : List ForkEntry → List ForkEntry → Type 0
  Extends base es = (more : List ForkEntry) × (es ≡ base ++ more)

  Adds-Extends :
      (base : List ForkEntry) (root : Text) (before after : List ForkEntry)
      → Adds fs from_str root before after
      → Extends base before
      → Extends base after
  Adds-Extends base root before after (inl q) (more, h) = (more, q ∙ h)
  Adds-Extends base root before after (inr (e, q, free, at, place, p)) (more, h) =
      (more ++ (e ∷ []), q ∙ (ap (λ t. t ++ (e ∷ [])) h ∙ append_assoc base more (e ∷ [])))

  scan_roots-append :
      (near far : List Text) (found : Found)
      → scan_roots fs from_str (near ++ far) found
        ≡ and_then (scan_roots fs from_str near found) (λ s. scan_roots fs from_str far s)
  unfolding scan_roots
  scan_roots-append [] far found = refl
  scan_roots-append (root ∷ near) far found =
      and_then-cong (scan_forks_dir fs from_str scan_fuel root root 0 found) _ _
        (λ s. scan_roots-append near far s)
      ∙ sym (and_then_assoc (scan_forks_dir fs from_str scan_fuel root root 0 found) _ _)

  entries_of-append : (near far : List Text) → Extends (entries_of near) (entries_of (near ++ far))
  unfolding or_nothing
  entries_of-append near far =
      let (r, e) = scan_roots-total fs from_str near none_yet in
      let (s, q) = scan_roots-total fs from_str far r in
      let joined : scan_roots fs from_str (near ++ far) none_yet ≡ some s =
        scan_roots-append near far none_yet
        ∙ (ap (λ o. and_then o (λ t. scan_roots fs from_str far t)) e ∙ q) in
      subst (λ o. Extends (or_nothing o).entries (entries_of (near ++ far))) (sym e)
        (subst (λ o. Extends r.entries (or_nothing o).entries) (sym joined)
          (subst (Holds fs from_str (Extends r.entries)) q (
            scan_roots-keeps fs from_str (Extends r.entries) far r
              (λ root before after m a h. Adds-Extends r.entries root before after a h)
              ([], sym (append-nil r.entries)))))

find-append :
    (p : ForkEntry → Bool) (xs ys : List ForkEntry) (e : ForkEntry)
    → find p xs ≡ some e
    → find p (xs ++ ys) ≡ some e
unfolding find
find-append p [] ys e h = cc
find-append p (x ∷ xs) ys e h = ground (arith, find-append p xs ys e)

-- Whatever the files hold, the discovery gives no two forks of the same name; each fork is the parse of
-- the file that it names; and that file is reached from the root that the fork names, which is one of the
-- roots, through names that the folders in between list: as a file that is listed, or as the `FORK.md` of a
-- folder that is.
pub discover_forks-IsDiscovered :
    (fs : FileSystem) (from_str : Text → Option RawFork) (dir : Text)
    (user_forks_root : Option Text)
    → IsDiscovered fs from_str
        (fork_roots fs dir user_forks_root)
        (discover_forks fs from_str dir user_forks_root).entries
unfolding discover_forks
discover_forks-IsDiscovered fs from_str dir user_forks_root =
    let roots = fork_roots fs dir user_forks_root in
    entries_of-keeps fs from_str (IsDiscovered fs from_str roots) roots
      (λ root before after m a h. Adds-IsDiscovered fs from_str roots root before after m a h)
      (record { distinct = tt; parsed = tt; rooted = tt })

if-append :
    (c : Bool) (xs us : List Text)
    → (more : List Text) × ((if c then xs ++ us else xs) ≡ xs ++ more)
if-append true xs us = (us, refl)
if-append false xs us = ([], sym (append-nil xs))

fork_roots-user :
    (fs : FileSystem) (dir : Text) (user_forks_root : Option Text)
    → (more : List Text) × (fork_roots fs dir user_forks_root ≡ fork_roots fs dir none ++ more)
unfolding fork_roots with_user_root
fork_roots-user fs dir none = ([], sym (append-nil _))
fork_roots-user fs dir (some user) = if-append _ _ _

-- A fork that a directory's projects define stays the one of its name when the user's forks are added:
-- the same file with the same contents.
pub discover_forks-project_first :
    (fs : FileSystem) (from_str : Text → Option RawFork) (dir : Text)
    (user_forks_root : Option Text) (name : Text) (e : ForkEntry)
    → find (named name) (discover_forks fs from_str dir none).entries ≡ some e
    → find (named name) (discover_forks fs from_str dir user_forks_root).entries ≡ some e
unfolding discover_forks
discover_forks-project_first fs from_str dir user_forks_root name e h =
    let (more, q) = fork_roots-user fs dir user_forks_root in
    let (es, p) = entries_of-append fs from_str (fork_roots fs dir none) more in
    rw (q, p) (find-append (named name) _ es e h)
