-- ===== src/Wake/Continuation.antt =====
-- What the daemon prints to wake a session is told from a user's prompt when it comes back.
use forksan.Prelude.{
  ◌≡◌, refl, ap, ◌∙◌, true, List, [], ◌∷◌, ◌++◌, append_assoc, map, Text, codes, join,
  contains_text, starts_with, trim_start,
}
use forksan.Wake.{
  wake_marker, DueFork, HeldFork, Ids, looks_like_continuation, root_block, release_block,
  build_wake_payload, build_release_payload,
}

abbrev header : Text
header = codes "---\nsource: autofork\ndue: "

-- A text with the header of a block at its start.
header_continues : (rest : Text) → looks_like_continuation (header ++ rest) ≡ true
unfolding looks_like_continuation contains_text starts_with trim_start
header_continues rest = refl

blocks_start :
    (h : Text) (block : DueFork → Text)
    → ((f : DueFork) → (body : Text) × (block f ≡ h ++ body))
    → (f : DueFork) (fs : List DueFork) (tail : Text)
    → (rest : Text) × (join (codes "\n\n") (map block (f ∷ fs)) ++ tail ≡ h ++ rest)
unfolding join
blocks_start h block starts f [] tail =
    let (body, e) = starts f in (body ++ tail, ap (λ t. t ++ tail) e ∙ append_assoc h body tail)
blocks_start h block starts f (g ∷ fs) tail =
    let (body, e) = starts f in
    let rest = codes "\n\n" ++ join (codes "\n\n") (map block (g ∷ fs)) in
    (
      (body ++ rest) ++ tail,
      ap (λ t. (t ++ rest) ++ tail) e
          ∙ (ap (λ t. t ++ tail) (append_assoc h body rest) ∙ append_assoc h (body ++ rest) tail),
    )

continues : (text rest : Text) → text ≡ header ++ rest → looks_like_continuation text ≡ true
continues text rest e = ap looks_like_continuation e ∙ header_continues rest

root_block_start : (ids : Ids) (f : DueFork) → (body : Text) × (root_block f ids ≡ header ++ body)
unfolding root_block
root_block_start ids f = (_, refl)

release_block_start :
    (ids : Ids) (f : DueFork) → (body : Text) × (release_block f ids ≡ header ++ body)
unfolding release_block
release_block_start ids f = (_, refl)

-- Every wake with at least one fork to spawn, whatever the forks' names, paths and triggers are, is
-- recognised as the daemon's own text when it comes back as a prompt.
pub build_wake_payload-looks_like_continuation :
    (ids : Ids) (f : DueFork) (fs : List DueFork) (held : List HeldFork)
    → looks_like_continuation (build_wake_payload ids (f ∷ fs) held) ≡ true
unfolding build_wake_payload
build_wake_payload-looks_like_continuation ids f fs held =
    let (rest, e) = blocks_start header (λ g. root_block g ids) (root_block_start ids) f fs _ in
    continues _ rest e

-- The same for every release of held forks.
pub build_release_payload-looks_like_continuation :
    (ids : Ids) (f : DueFork) (fs : List DueFork)
    → looks_like_continuation (build_release_payload ids (f ∷ fs)) ≡ true
unfolding build_release_payload
build_release_payload-looks_like_continuation ids f fs =
    let (rest, e) =
      blocks_start header (λ g. release_block g ids) (release_block_start ids) f fs _ in
    continues _ rest e

header-wake_marker : (rest : Text) → contains_text (header ++ rest) wake_marker ≡ true
unfolding contains_text starts_with
header-wake_marker rest = refl

-- A wake carries the marker.
pub build_wake_payload-wake_marker :
    (ids : Ids) (f : DueFork) (fs : List DueFork) (held : List HeldFork)
    → contains_text (build_wake_payload ids (f ∷ fs) held) wake_marker ≡ true
unfolding build_wake_payload
build_wake_payload-wake_marker ids f fs held =
    let (rest, e) = blocks_start header (λ g. root_block g ids) (root_block_start ids) f fs _ in
    ap (λ t. contains_text t wake_marker) e ∙ header-wake_marker rest

-- So does a release.
pub build_release_payload-wake_marker :
    (ids : Ids) (f : DueFork) (fs : List DueFork)
    → contains_text (build_release_payload ids (f ∷ fs)) wake_marker ≡ true
unfolding build_release_payload
build_release_payload-wake_marker ids f fs =
    let (rest, e) =
      blocks_start header (λ g. release_block g ids) (release_block_start ids) f fs _ in
    ap (λ t. contains_text t wake_marker) e ∙ header-wake_marker rest
