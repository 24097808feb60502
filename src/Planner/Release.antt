-- ===== src/Planner/Release.antt =====
-- Held dependents are released once, when all their predecessors have completed.
use forksan.Prelude.{
  In-All, All-all, all-All, All-In, map-In, In-map, ℕ, ◌≡◌, ◌≢◌, ◌↔◌, ◌⊎◌, refl, ap, ◌∙◌, sym,
  subst, Bool, true, false, not, List, [], ◌∷◌, map, Option, none, some, Text, In, inl, inr,
  text_eq, ◌==◌, ==_refl, ne→==, filter, In-filter, Bool-cases,
}
use forksan.Sql.Keys.{HasUnique-same}
use forksan.Store.Keys.{IsKeyed, pending_key}
use forksan.Sql.{delete_where}
use forksan.Store.{
  Store, SessionRow, PendingRecord, PendingDep, list_pending_deps, delete_pending_dep, pending_dep,
  is_pending, fork_completed_since,
}
use forksan.Store.Held.{In-list_pending_deps}
use forksan.Wake.{looks_like_continuation}
use forksan.Wake.Continuation.{build_release_payload-looks_like_continuation}
use forksan.Planner.{Daemon, note_wake_issued}
use forksan.Planner.Issue.{
  is_releasable, releasable, delete_all, release_due, release_all, ids_of, due_release,
}

is_pending-own :
    (sid name : Text) (x : PendingRecord)
    → x.session_id ≡ sid
    → x.fork_name ≡ name
    → is_pending sid name x ≡ true
is_pending-own sid name x e q = rw (e, q, ==_refl sid, ==_refl name) refl

is_pending-other :
    (sid name : Text) (x : PendingRecord) → x.fork_name ≢ name → is_pending sid name x ≡ false
is_pending-other sid name x n = elim (Bool-cases (x.session_id == sid)) [
  | inl own ↦ rw own (ne→== x.fork_name name n)
  | inr other ↦ rw other refl
]

-- Of the listed dependents, one deletion drops those of its fork.
delete-listed :
    (sid name : Text) (d : PendingDep) (s : Store)
    → In d (list_pending_deps sid (delete_pending_dep sid name s))
      ↔ (In d (list_pending_deps sid s) × (d.fork_name ≢ name))
unfolding delete_pending_dep delete_where pending_dep
delete-listed sid name d s =
    let before = In-list_pending_deps d sid s in
    let later = In-list_pending_deps d sid (delete_pending_dep sid name s) in
    (
      λ m.
          let (x, k, own, q) = later.0 m in
          let (j, kept) = (In-filter (λ r. not (is_pending sid name r)) x s.pending_deps).0 k in
          (
            before.1 (x, j, own, q),
            λ e. cc (is_pending-own sid name x own (sym (ap PendingDep.fork_name q) ∙ e), kept),
          ),
      λ (m, n).
          let (x, k, own, q) = before.0 m in
          later.1 (
            x,
            (In-filter (λ r. not (is_pending sid name r)) x s.pending_deps).1
                (k, ap not (is_pending-other sid name x (λ z. n (ap PendingDep.fork_name q ∙ z)))),
            own,
            q,
          ),
    )

delete_all-listed :
    (sid : Text) (deps : List PendingDep) (d : PendingDep) (s : Store)
    → In d (list_pending_deps sid (delete_all sid deps s))
      ↔ (In d (list_pending_deps sid s) × ¬ In d.fork_name (map PendingDep.fork_name deps))
unfolding delete_all
delete_all-listed sid [] d s = (λ m. (m, λ k. k), λ (m, n). m)
delete_all-listed sid (e ∷ deps) d s =
    let rest = delete_all-listed sid deps d (delete_pending_dep sid e.fork_name s) in
    let one = delete-listed sid e.fork_name d s in
    (
      λ m.
          let (k, n) = rest.0 m in
          let (j, ne) = one.0 k in (j, λ p. elim p [ inl q ↦ ne q | inr z ↦ n z ]),
      λ (m, n). rest.1 (one.1 (m, λ q. n (inl q)), λ z. n (inr z)),
    )

-- With unique keys a listed dependent is known by its fork.
listed-same :
    (sid : Text) (s : Store) (d e : PendingDep)
    → IsKeyed s
    → In d (list_pending_deps sid s)
    → In e (list_pending_deps sid s)
    → d.fork_name ≡ e.fork_name
    → d ≡ e
unfolding pending_dep
listed-same sid s d e k m n q =
    let (x, xm, xo, xe) = (In-list_pending_deps d sid s).0 m in
    let (y, ym, yo, ye) = (In-list_pending_deps e sid s).0 n in
    let same_name = sym (ap PendingDep.fork_name xe) ∙ (q ∙ ap PendingDep.fork_name ye) in
    let same =
      HasUnique-same pending_key s.pending_deps k.pending_deps x y xm ym
        (λ i. ((xo ∙ sym yo) i, same_name i)) in
    xe ∙ (ap pending_dep same ∙ sym ye)

left_after :
    (sid : Text) (s : Store) (d : PendingDep)
    → IsKeyed s
    → In d (list_pending_deps sid (delete_all sid (releasable sid s) s))
      ↔ (In d (list_pending_deps sid s) × (is_releasable sid s d ≡ false))
unfolding releasable
left_after sid s d k =
    let listed = list_pending_deps sid s in
    let free = filter (is_releasable sid s) listed in
    let spec = delete_all-listed sid free d s in
    (
      λ m.
          let (j, n) = spec.0 m in
          (
            j,
            elim (Bool-cases (is_releasable sid s d)) [
              | inl met ↦ absurd (
                  n (
                    In-map PendingDep.fork_name d free
                      ((In-filter (is_releasable sid s) d listed).1 (j, met))))
              | inr unmet ↦ unmet
            ],
          ),
      λ (m, unmet). spec.1 (
        m,
        λ z.
            let (e, n, q) = map-In PendingDep.fork_name d.fork_name free z in
            let (j, met) = (In-filter (is_releasable sid s) e listed).0 n in
            cc (ap (is_releasable sid s) (listed-same sid s d e k m j q), met, unmet),
      ),
    )

-- All that the dependent waits for has completed since it was held.
abbrev pub IsReady : Text → Store → PendingDep → Type 0
IsReady sid s d =
    (pred : Text) → In pred d.preds → fork_completed_since sid pred d.created_at s ≡ true

is_releasable-IsReady :
    (sid : Text) (s : Store) (d : PendingDep) → (is_releasable sid s d ≡ true) ↔ IsReady sid s d
unfolding is_releasable
is_releasable-IsReady sid s d =
    let completed : Text → Bool = λ pred. fork_completed_since sid pred d.created_at s in
    (
      λ h pred m. All-In (λ q. completed q ≡ true) d.preds pred (all-All completed d.preds h) m,
      λ h. All-all completed d.preds (In-All (λ q. completed q ≡ true) d.preds h),
    )

-- What came of a release: nothing, or a text that is known for the daemon's own.
abbrev pub Outcome : Text → Store → Option Text → Type 0
Outcome sid s result =
    ((result ≡ none) × ((x : PendingDep) → In x (list_pending_deps sid s) → ¬ IsReady sid s x))
    ⊎ ((text : Text) × (result ≡ some text)
        × (looks_like_continuation text ≡ true)
        × ((x : PendingDep) × In x (list_pending_deps sid s) × IsReady sid s x))

not-is_releasable-IsReady :
    (sid : Text) (s : Store) (d : PendingDep) → (is_releasable sid s d ≡ false) ↔ ¬ IsReady sid s d
not-is_releasable-IsReady sid s d = (
  λ e r. cc ((is_releasable-IsReady sid s d).1 r, e),
  λ n. elim (Bool-cases (is_releasable sid s d)) [
    | inl met ↦ absurd (n ((is_releasable-IsReady sid s d).0 met))
    | inr unmet ↦ unmet
  ],
)

In-releasable :
    (sid : Text) (s : Store) (x : PendingDep)
    → In x (releasable sid s) ↔ (In x (list_pending_deps sid s) × IsReady sid s x)
unfolding releasable
In-releasable sid s x =
    let spec = In-filter (is_releasable sid s) x (list_pending_deps sid s) in
    (
      λ m. let (j, met) = spec.0 m in (j, (is_releasable-IsReady sid s x).0 met),
      λ (j, r). spec.1 (j, (is_releasable-IsReady sid s x).1 r),
    )

release_all-Outcome :
    (session : SessionRow) (noted_at : ℕ) (d : Daemon) (free : List PendingDep)
    → ((x : PendingDep)
        → In x free ↔ (
            In x (list_pending_deps session.session_id d.store)
            × IsReady session.session_id d.store x))
    → Outcome session.session_id d.store (release_all session noted_at free d).1
unfolding release_all
release_all-Outcome session noted_at d [] spec = inl (refl, λ x m r. (spec x).1 (m, r))
release_all-Outcome session noted_at d (e ∷ free) spec = inr (
  _,
  refl,
  build_release_payload-looks_like_continuation (ids_of session) (due_release e)
      (map due_release free),
  (e, ((spec e).0 (inl refl)).0, ((spec e).0 (inl refl)).1),
)

-- In a store with unique keys, a release takes from the held dependents of the session exactly those
-- whose predecessors have all completed since they were held, so none is released twice. It answers
-- nothing exactly when there is none, and otherwise with a text that is known for the daemon's own.
pub release_due_lem :
    (session : SessionRow) (noted_at : ℕ) (d : Daemon)
    → IsKeyed d.store
    → ((x : PendingDep)
        → In x (list_pending_deps session.session_id (release_due session noted_at d).0.store) ↔ (
            In x (list_pending_deps session.session_id d.store)
            × ¬ IsReady session.session_id d.store x))
      × Outcome session.session_id d.store (release_due session noted_at d).1
unfolding release_due
release_due_lem session noted_at d k =
    let sid = session.session_id in
    let s = d.store in
    (
      λ x.
          let left = left_after sid s x k in
          (
            λ m.
                let (j, e) =
                  left.0
                    (subst (λ t. In x (list_pending_deps sid t)) (written (releasable sid s)) m) in
                (j, (not-is_releasable-IsReady sid s x).0 e),
            λ (j, n).
                subst (λ t. In x (list_pending_deps sid t)) (sym (written (releasable sid s)))
                  (left.1 (j, (not-is_releasable-IsReady sid s x).1 n)),
          ),
      release_all-Outcome session noted_at d (releasable sid s) (In-releasable sid s),
    )
  where
    written :
        (free : List PendingDep)
        → (release_all session noted_at free d).0.store ≡ delete_all session.session_id free d.store
    written [] = unfold delete_all in refl
    written (e ∷ free) = unfold note_wake_issued in refl
