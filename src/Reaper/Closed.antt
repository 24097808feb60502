-- ===== src/Reaper/Closed.antt =====
-- What stays open after a round of closing.
use forksan.Prelude.{
  ◌+◌, ◌*◌, ◌%◌, ◌-◌, ◌≤◌, arith, ltb, word, ltb_i64, ltb_i64-nonneg, ltb_i64-neg, half_word,
  wrapping_sub, ◌<◌, ◌⊎◌, wrapping_mul, ℕ, ◌≡◌, ◌≢◌, ◌↔◌, refl, ap, ◌∙◌, sym, subst, Bool, true,
  false, List, [], ◌∷◌, map, Text, In, inl, inr, text_eq, ◌==◌, ==_refl, ne→==, filter, In-filter,
  In-sort_by, In-map, map-In, Bool-cases, sort_by, leb, if◌then◌else◌,
}
use forksan.Sql.{update_where}
use forksan.Sql.Keys.{HasUnique-same}
use forksan.Store.Keys.{IsKeyed}
use forksan.Store.{
  Store, SessionRecord, SessionRow, is_open, is_session, row_to_session, list_open_sessions,
  close_session, closed,
}
use forksan.Reaper.{cutoffs, close_all, is_timed_out, reap, is_stale, prune}

In-list_open_sessions :
    (r : SessionRow) (s : Store)
    → In r (list_open_sessions s)
      ↔ ((x : SessionRecord) × In x s.sessions × (is_open x ≡ true) × (r ≡ row_to_session x))
unfolding list_open_sessions
In-list_open_sessions r s =
    let newest : SessionRecord → SessionRecord → Bool =
      λ a b. leb (SessionRecord.last_activity b) (SessionRecord.last_activity a) in
    let rows = filter is_open s.sessions in
    (
      λ m.
          let (x, n, q) = map-In row_to_session r (sort_by newest rows) m in
          let (k, open_row) = (In-filter is_open x s.sessions).0 ((In-sort_by newest x rows).0 n) in
          (x, k, open_row, q),
      λ (x, k, open_row, q).
          subst (λ z. In z (map row_to_session (sort_by newest rows))) (sym q)
            (In-map row_to_session x (sort_by newest rows)
              ((In-sort_by newest x rows).1 ((In-filter is_open x s.sessions).1 (k, open_row)))),
    )

In-update_where_iff :
    {R : Type 0} (p : R → Bool) (f : R → R) (y : R) (rs : List R)
    → In y (update_where p f rs) ↔ ((x : R) × In x rs × (y ≡ (if p x then f x else x)))
unfolding update_where
In-update_where_iff p f y [] = (λ m. absurd m, λ (x, m, e). m)
In-update_where_iff p f y (r ∷ rs) =
    let ih = In-update_where_iff p f y rs in
    (
      λ m. elim m [ inl e ↦ (r, inl refl, e) | inr k ↦ let (x, n, e) = ih.0 k in (x, inr n, e) ],
      λ (x, m, e). elim m [
        | inl q ↦ inl (e ∙ ap (λ z. if p z then f z else z) q)
        | inr k ↦ inr (ih.1 (x, k, e))
      ],
    )

shut : SessionRecord → SessionRecord
shut x = record x { status = closed }

shut-is_open : (x : SessionRecord) → is_open (shut x) ≡ false
unfolding shut is_open
shut-is_open x = refl

row-session_id :
    (r : SessionRow) (x : SessionRecord) → r ≡ row_to_session x → r.session_id ≡ x.session_id
unfolding row_to_session
row-session_id r x q = ap SessionRow.session_id q

-- An open row after the update is an open row of another session before it.
open_row-update_where :
    (sid : Text) (x y : SessionRecord)
    → y ≡ (if is_session sid x then shut x else x)
    → is_open y ≡ true
    → (y ≡ x) × (x.session_id ≢ sid)
open_row-update_where sid x y e o = elim (Bool-cases (is_session sid x)) [
  | inl own ↦ cc (ap is_open (e ∙ ap (λ b. if b then shut x else x) own), shut-is_open x, o)
  | inr other ↦ (
    e ∙ ap (λ b. if b then shut x else x) other,
    λ q. cc (ap (λ z. z == sid) q, ==_refl sid, other),
  )
]

close_session-open :
    (sid : Text) (r : SessionRow) (s : Store)
    → In r (list_open_sessions (close_session sid s))
      ↔ (In r (list_open_sessions s) × (r.session_id ≢ sid))
unfolding close_session shut
close_session-open sid r s =
    let before = In-list_open_sessions r s in
    let later = In-list_open_sessions r (close_session sid s) in
    (
      λ m.
          let (y, k, o, q) = later.0 m in
          let (x, n, e) = (In-update_where_iff (is_session sid) shut y s.sessions).0 k in
          let (same, other) = open_row-update_where sid x y e o in
          let row = q ∙ ap row_to_session same in
          (
            before.1 (x, n, ap is_open (sym same) ∙ o, row),
            λ z. other (sym (row-session_id r x row) ∙ z),
          ),
      λ (m, n).
          let (x, k, o, q) = before.0 m in
          later.1 (
            x,
            (In-update_where_iff (is_session sid) shut x s.sessions).1
                (x, k, unmoved x (λ z. n (row-session_id r x q ∙ z))),
            o,
            q,
          ),
    )
  where
    unmoved :
        (x : SessionRecord) → x.session_id ≢ sid → x ≡ (if is_session sid x then shut x else x)
    unmoved x n = rw (ne→== x.session_id sid n) refl

pub close_all-open :
    (sids : List Text) (r : SessionRow) (s : Store)
    → In r (list_open_sessions (close_all sids s))
      ↔ (In r (list_open_sessions s) × ¬ In r.session_id sids)
unfolding close_all
close_all-open [] r s = (λ m. (m, λ k. k), λ (m, n). m)
close_all-open (sid ∷ sids) r s =
    let rest = close_all-open sids r (close_session sid s) in
    let one = close_session-open sid r s in
    (
      λ m.
          let (k, n) = rest.0 m in
          let (j, ne) = one.0 k in (j, λ q. elim q [ inl e ↦ ne e | inr z ↦ n z ]),
      λ (m, n). rest.1 (one.1 (m, λ q. n (inl q)), λ z. n (inr z)),
    )

open-same :
    (s : Store) (r t : SessionRow)
    → IsKeyed s
    → In r (list_open_sessions s)
    → In t (list_open_sessions s)
    → r.session_id ≡ t.session_id
    → r ≡ t
open-same s r t k m n e =
    let (x, xm, xo, xe) = (In-list_open_sessions r s).0 m in
    let (y, ym, yo, ye) = (In-list_open_sessions t s).0 n in
    let same =
      HasUnique-same SessionRecord.session_id s.sessions k.sessions x y xm ym
        (sym (row-session_id r x xe) ∙ (e ∙ row-session_id t y ye)) in
    xe ∙ (ap row_to_session same ∙ sym ye)

cutoffs-open :
    (p : SessionRow → Bool) (s : Store) (r : SessionRow)
    → IsKeyed s
    → In r (list_open_sessions (close_all (cutoffs p s) s))
      ↔ (In r (list_open_sessions s) × (p r ≡ false))
unfolding cutoffs
cutoffs-open p s r k =
    let listed = list_open_sessions s in
    let spec = close_all-open (map SessionRow.session_id (filter p listed)) r s in
    (
      λ m.
          let (j, n) = spec.0 m in
          (
            j,
            elim (Bool-cases (p r)) [
              | inl hit ↦ absurd (
                  n (
                    In-map SessionRow.session_id r (filter p listed)
                      ((In-filter p r listed).1 (j, hit))))
              | inr miss ↦ miss
            ],
          ),
      λ (m, miss). spec.1 (
        m,
        λ z.
            let (t, n, q) = map-In SessionRow.session_id r.session_id (filter p listed) z in
            let (j, hit) = (In-filter p t listed).0 n in
            cc (ap p (open-same s r t k m j q), hit, miss),
      ),
    )

abbrev pub IsClock : ℕ → Type 0
IsClock t = t < half_word

is_timed_out_iff :
    (timeout : Text → ℕ) (now : ℕ) (r : SessionRow)
    → is_timed_out timeout now r ≡ false
      ↔ ((timeout r.project_root ≡ 0) ⊎ (now < r.last_activity + timeout r.project_root))
unfolding is_timed_out
is_timed_out_iff timeout now r = (λ e. ground arith, λ e. ground arith)

older :
    (deadline now last : ℕ)
    → 2 * deadline < half_word
    → IsClock now
    → IsClock last
    → ltb_i64 (wrapping_mul 2 deadline) (wrapping_sub now last) ≡ ltb (last + 2 * deadline) now
unfolding wrapping_mul wrapping_sub
older deadline now last fits t l = elim (Bool-cases (leb last now)) [
  | inl past ↦
      rw
        (
          small fits,
          forward past,
          ltb_i64-nonneg (2 * deadline) (now - last) fits (omega (arith, t)),
        )
        (ground arith)
  | inr ahead ↦
      rw
        (
          small fits,
          backward ahead,
          ltb_i64-neg (2 * deadline) (now + word - last) fits (ground arith) (ground arith),
        )
        (ground arith)
]
  where
    small : 2 * deadline < half_word → (2 * deadline) % word ≡ 2 * deadline
    small q = omega arith

    forward : leb last now ≡ true → (now + word - last) % word ≡ now - last
    forward q = ground (arith, q, t, l)

    backward : leb last now ≡ false → (now + word - last) % word ≡ now + word - last
    backward q = ground (arith, q, t, l)

is_stale_iff :
    (is_parked : Text → Bool) (deadline : Text → ℕ) (now : ℕ) (r : SessionRow)
    → 2 * deadline r.project_root < half_word
    → IsClock now
    → IsClock r.last_activity
    → is_stale is_parked deadline now r ≡ false ↔ (
        (is_parked r.session_id ≡ true)
        ⊎ ((deadline r.project_root ≡ 0) ⊎ (now ≤ r.last_activity + 2 * deadline r.project_root)))
unfolding is_stale
is_stale_iff is_parked deadline now r fits t l =
    rw (older (deadline r.project_root) now r.last_activity fits t l)
      (λ e. ground arith, λ e. ground arith)

-- In a store with unique keys, a round of the reaper leaves open exactly the open sessions whose
-- project has no timeout or that were active less than the timeout ago. Pruning leaves open exactly
-- the open sessions that are polled, whose project has no idle deadline, or that were active at most
-- two deadlines ago; for that, times and twice the deadline fit an i64. What they leave open is not
-- changed.
pub reap-prune :
    (timeout deadline : Text → ℕ) (is_parked : Text → Bool) (now : ℕ) (s : Store) (r : SessionRow)
    → IsKeyed s
    → 2 * deadline r.project_root < half_word
    → IsClock now
    → IsClock r.last_activity
    → (In r (list_open_sessions (reap timeout now s)) ↔ (
        In r (list_open_sessions s)
        × ((timeout r.project_root ≡ 0) ⊎ (now < r.last_activity + timeout r.project_root))))
      × (In r (list_open_sessions (prune is_parked deadline now s).0) ↔ (
          In r (list_open_sessions s)
          × ((is_parked r.session_id ≡ true)
              ⊎ ((deadline r.project_root ≡ 0)
                  ⊎ (now ≤ r.last_activity + 2 * deadline r.project_root)))))
unfolding reap prune
reap-prune timeout deadline is_parked now s r k fits t l =
    let reaped = cutoffs-open (is_timed_out timeout now) s r k in
    let pruned = cutoffs-open (is_stale is_parked deadline now) s r k in
    let young = is_timed_out_iff timeout now r in
    let fresh = is_stale_iff is_parked deadline now r fits t l in
    (
      (λ m. let (j, q) = reaped.0 m in (j, young.0 q), λ (j, q). reaped.1 (j, young.1 q)),
      (λ m. let (j, q) = pruned.0 m in (j, fresh.0 q), λ (j, q). pruned.1 (j, fresh.1 q)),
    )
