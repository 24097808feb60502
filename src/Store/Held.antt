-- ===== src/Store/Held.antt =====
-- Held dependents: what is stored is what is listed, for names without commas.
use forksan.Prelude.{
  ◌⊎◌, ◌↔◌, ℕ, ◌≡◌, refl, ap, ◌∙◌, sym, Bool, true, false, not, List, [], ◌∷◌, ◌++◌, map, Text,
  text_eq, ◌==◌, ==_refl, ==_sound, All, All-map, In, In-append_right, In-append, In-map, map-In,
  In-filter, In-sort_by, filter, sort_by, split, join, split-join, trim, is_empty, inl, inr, subst,
}
use forksan.Sql.{insert_or_replace, delete_where}
use forksan.Store.{
  held_before, Store, PendingRecord, PendingDep, split_list, insert_pending_dep, list_pending_deps,
  pending_dep, is_pending,
}

-- A text that survives in a comma-joined column.
abbrev pub IsListable : Text → Type 0
IsListable t = ¬ In b',' t × (trim t ≡ t) × (is_empty t ≡ false)

keep_pieces : List Text → List Text
keep_pieces ps = filter (λ t. not (is_empty t)) (map trim ps)

keep_pieces-listable : (ps : List Text) → All IsListable ps → keep_pieces ps ≡ ps
unfolding keep_pieces filter
keep_pieces-listable [] h = refl
keep_pieces-listable (p ∷ ps) h =
    let (no_comma, trimmed, full) = h.0 in rw (trimmed, full, keep_pieces-listable ps h.1)

-- A list of such texts is read back as it was written.
pub split_list-join : (ps : List Text) → All IsListable ps → split_list (join (b',' ∷ []) ps) ≡ ps
unfolding split_list
split_list-join [] h = unfold join split filter trim in refl
split_list-join (p ∷ ps) h =
    rw (split-join b',' p ps (All-map IsListable (λ q. ¬ In b',' q) (p ∷ ps) (λ q k. k.0) h))
      (unfold keep_pieces in keep_pieces-listable (p ∷ ps) h)

abbrev of_session : Text → PendingRecord → Bool
of_session sid r = r.session_id == sid

-- What is listed for a session are its rows.
pub In-list_pending_deps :
    (d : PendingDep) (sid : Text) (s : Store)
    → In d (list_pending_deps sid s)
      ↔ ((x : PendingRecord) × In x s.pending_deps × (x.session_id ≡ sid) × (d ≡ pending_dep x))
unfolding list_pending_deps
In-list_pending_deps d sid s =
    let rows = filter (of_session sid) s.pending_deps in
    (
      λ m.
          let (x, n, q) = map-In pending_dep d (sort_by held_before rows) m in
          let (k, own) =
            (In-filter (of_session sid) x s.pending_deps).0 ((In-sort_by held_before x rows).0 n) in
          (x, k, ==_sound x.session_id sid own, q),
      λ (x, k, own, q).
          subst (λ z. In z (map pending_dep (sort_by held_before rows))) (sym q)
            (In-map pending_dep x (sort_by held_before rows) (
              (In-sort_by held_before x rows).1
                ((In-filter (of_session sid) x s.pending_deps).1 (k, rw own (==_refl sid))))),
    )

abbrev pub held : Text → Text → Text → Bool → List Text → ℕ → PendingDep
held name path label overlap preds now = record {
  fork_name = name;
  fork_path = path;
  trigger_label = label;
  overlap = overlap;
  preds = preds;
  created_at = now;
}

module _ (sid name path label : Text) (overlap : Bool) (preds : List Text) (now : ℕ) (s : Store)
    (listable : All IsListable preds) where
  row : PendingRecord
  row = record {
    session_id = sid;
    fork_name = name;
    fork_path = path;
    trigger_label = label;
    overlap = overlap;
    preds = join (b',' ∷ []) preds;
    created_at = now;
  }

  read_back : pending_dep row ≡ held name path label overlap preds now
  unfolding pending_dep row
  read_back = λ i. record {
    fork_name = name;
    fork_path = path;
    trigger_label = label;
    overlap = overlap;
    preds = split_list-join preds listable i;
    created_at = now;
  }

  pending_here :
      (x : PendingRecord) → x.session_id ≡ sid → x.fork_name ≡ name → is_pending sid name x ≡ true
  pending_here x p q = rw (p, q, ==_refl sid, ==_refl name)

  pending_name : (x : PendingRecord) → PendingDep.fork_name (pending_dep x) ≡ x.fork_name
  unfolding pending_dep
  pending_name x = refl

  -- A dependent that was just held is listed with its predecessors, and is the only one that is
  -- listed for its fork, when the names of the predecessors are trimmed, not empty and without
  -- commas.
  pub list_pending_deps-insert_pending_dep :
      In
        (held name path label overlap preds now)
        (list_pending_deps sid (insert_pending_dep sid name path label overlap preds now s))
      × ((d : PendingDep)
          → In d
              (list_pending_deps sid (insert_pending_dep sid name path label overlap preds now s))
          → d.fork_name ≡ name
          → d ≡ held name path label overlap preds now)
  list_pending_deps-insert_pending_dep = (
    (In-list_pending_deps _ sid _).1 (
      row,
      unfold insert_pending_dep insert_or_replace row in
          In-append_right row (delete_where (is_pending sid name) s.pending_deps) (row ∷ [])
            (inl refl),
      unfold row in refl,
      sym read_back,
    ),
    λ d m e.
        let (x, k, own, q) = (In-list_pending_deps d sid _).0 m in
        elim (stored x k) [
          | inl old ↦
              absurd
                (not_kept x old own (sym (pending_name x) ∙ (ap PendingDep.fork_name (sym q) ∙ e)))
          | inr new ↦ q ∙ (ap pending_dep new ∙ read_back)
        ],
  )
    where
      stored :
          (x : PendingRecord)
          → In x (Store.pending_deps (insert_pending_dep sid name path label overlap preds now s))
          → In x (delete_where (is_pending sid name) s.pending_deps) ⊎ (x ≡ row)
      stored x k =
          elim (In-append x (delete_where (is_pending sid name) s.pending_deps) (row ∷ [])
            (unfold insert_pending_dep insert_or_replace row in k)) [
              | inl old ↦ inl old
              | inr (inl new) ↦ inr new
              | inr (inr f) ↦ absurd f
            ]

      not_kept :
          (x : PendingRecord)
          → In x (delete_where (is_pending sid name) s.pending_deps)
          → x.session_id ≡ sid
          → x.fork_name ≡ name
          → ⊥
      not_kept x m p q =
          let (k, r) =
            (In-filter (λ y. not (is_pending sid name y)) x s.pending_deps).0
              (unfold delete_where in m) in
          cc (r, pending_here x p q)

joins_alike :
    (a b : Text) → join (b',' ∷ []) ((a ++ (b',' ∷ b)) ∷ []) ≡ join (b',' ∷ []) (a ∷ b ∷ [])
unfolding join
joins_alike a b = refl

insert_pending_dep-comma :
    (sid name path label a b : Text) (overlap : Bool) (now : ℕ) (s : Store)
    → insert_pending_dep sid name path label overlap ((a ++ (b',' ∷ b)) ∷ []) now s
      ≡ insert_pending_dep sid name path label overlap (a ∷ b ∷ []) now s
unfolding insert_pending_dep
insert_pending_dep-comma sid name path label a b overlap now s = rw (joins_alike a b)

-- A dependent that is held for one predecessor, whose name is two listable texts around a comma, is listed
-- as held for two predecessors with those two names, and as nothing else.
pub list_pending_deps-comma :
    (sid name path label a b : Text) (overlap : Bool) (now : ℕ) (s : Store)
    → IsListable a
    → IsListable b
    → In (held name path label overlap (a ∷ b ∷ []) now) (
        list_pending_deps sid
          (insert_pending_dep sid name path label overlap ((a ++ (b',' ∷ b)) ∷ []) now s))
      × ((d : PendingDep)
          → In d (
              list_pending_deps sid
                (insert_pending_dep sid name path label overlap ((a ++ (b',' ∷ b)) ∷ []) now s))
          → d.fork_name ≡ name
          → d ≡ held name path label overlap (a ∷ b ∷ []) now)
list_pending_deps-comma sid name path label a b overlap now s ha hb =
    rw (insert_pending_dep-comma sid name path label a b overlap now s) (
      list_pending_deps-insert_pending_dep sid name path label overlap (a ∷ b ∷ []) now s
        (ha, (hb, tt)))
