-- ===== src/Planner/Roots.antt =====
-- A wake says something to spawn, and what it says is known for the daemon's own.
use forksan.Prelude.{
  ◌⊎◌, ℕ, zero, suc, ◌+◌, ◌<◌, ◌≡◌, ◌≢◌, refl, ap, subst, true, List, [], ◌∷◌, map, none, some,
  Text, inl, inr, length, get_or, arith,
}
use forksan.Schedule.{Graph, resolve_deps}
use forksan.Schedule.Roots.{root_of-resolve_deps}
use forksan.Store.{Store, SessionRow}
use forksan.Wake.{DueFork, HeldFork, looks_like_continuation, build_wake_payload}
use forksan.Wake.Continuation.{build_wake_payload-looks_like_continuation}
use forksan.Planner.{SelectedFork, Daemon, selected_fork}
use forksan.Planner.Issue.{Issued, issue, add_issued, preds_of, build_wake, ids_of}

roots-add_issued :
    (sel : SelectedFork) (preds : List Text) (rest : Issued)
    → rest.roots ≢ []
    → (add_issued sel preds rest).roots ≢ []
unfolding add_issued
roots-add_issued sel [] rest h e = cc
roots-add_issued sel (p ∷ preds) rest h e = h e

-- A fork that waits for nothing is pushed.
issue-roots :
    (session : SessionRow) (t : ℕ) (selected : List SelectedFork) (deps : Graph) (i k : ℕ)
    (sels : List SelectedFork) (s : Store)
    → k < length sels
    → get_or deps (i + k) [] ≡ []
    → (issue session t selected deps i sels s).roots ≢ []
unfolding issue
issue-roots session t selected deps i k [] s h e = elim h [ ]
issue-roots session t selected deps i zero (sel ∷ sels) s h e =
    pushed (preds_of selected deps i) _
      (no_preds i (subst (λ j. get_or deps j [] ≡ []) (omega arith) e))
  where
    no_preds : (j : ℕ) → get_or deps j [] ≡ [] → preds_of selected deps j ≡ []
    no_preds j q = unfold preds_of in ap (map _) q

    pushed :
        (preds : List Text) (rest : Issued) → preds ≡ [] → (add_issued sel preds rest).roots ≢ []
    pushed [] rest q r = unfold add_issued in cc
    pushed (p ∷ ps) rest q r = cc
issue-roots session t selected deps i (suc k) (sel ∷ sels) s h e =
    roots-add_issued sel (preds_of selected deps i) _ (
      issue-roots session t selected deps (suc i) k sels _ (omega arith)
        (subst (λ j. get_or deps j [] ≡ []) (omega arith) e))

-- A wake is issued exactly when something is selected, and its text is known for the daemon's own when
-- it comes back as a prompt, since it has a fork to spawn at once, whatever the forks wait for.
pub build_wake-looks_like_continuation :
    (session : SessionRow) (selected : List SelectedFork) (t noted_at : ℕ) (d : Daemon)
    → ((build_wake session selected t noted_at d).1 ≡ none) × (selected ≡ [])
      ⊎ ((text : Text) × ((build_wake session selected t noted_at d).1 ≡ some text)
          × (looks_like_continuation text ≡ true)
          × (selected ≢ []))
unfolding build_wake
build_wake-looks_like_continuation session [] t noted_at d = inl (refl, refl)
build_wake-looks_like_continuation session (x ∷ xs) t noted_at d =
    let selected = x ∷ xs in
    let issued = issue session t selected (resolve_deps selected) 0 selected d.store in
    let (r, lt, e) = root_of-resolve_deps selected (omega arith) in
    inr (
      build_wake_payload (ids_of session) issued.roots issued.held,
      refl,
      continues issued.roots issued.held (
          issue-roots session t selected (resolve_deps selected) 0 r selected d.store lt
            (subst (λ j. get_or (resolve_deps selected) j [] ≡ []) (omega arith) e)),
      λ q. cc,
    )
  where
    continues :
        (roots : List DueFork) (held : List HeldFork)
        → roots ≢ []
        → looks_like_continuation (build_wake_payload (ids_of session) roots held) ≡ true
    continues [] held h = absurd (h refl)
    continues (f ∷ fs) held h =
        build_wake_payload-looks_like_continuation (ids_of session) f fs held
