-- ===== src/Store/Latch.antt =====
-- The latch of a session, a fork and a key.
use forksan.Prelude.{
  ℕ, ◌≡◌, ◌∙◌, Bool, true, not, ◌&&◌, ◌||◌, Text, text_eq, ◌==◌, ==_sound, arith, any, Bool-cases,
  inl, inr,
}
use forksan.Sql.{insert_or_ignore}
use forksan.Sql.Laws.{count_where-any, any-append}
use forksan.Store.{Store, is_fire, is_latched, try_latch_fire}

is_latched-any :
    (sid name label : Text) (s : Store)
    → is_latched sid name label s ≡ any (is_fire sid name label) s.fork_fires
unfolding is_latched
is_latched-any sid name label s = count_where-any (is_fire sid name label) s.fork_fires

-- The keys of two latches are the same.
abbrev pub same_latch : Text × Text × Text → Text × Text × Text → Bool
same_latch (a, b, c) (d, e, f) = a == d && (b == e && c == f)

same_latch_sound :
    (a b c d e f : Text) → same_latch (a, b, c) (d, e, f) ≡ true → (a ≡ d) × (b ≡ e) × (c ≡ f)
same_latch_sound a b c d e f h =
    (==_sound a d (ground arith), ==_sound b e (second h), ==_sound c f (third h))
  where
    second : same_latch (a, b, c) (d, e, f) ≡ true → (b == e) ≡ true
    second q = ground arith

    third : same_latch (a, b, c) (d, e, f) ≡ true → (c == f) ≡ true
    third q = ground arith

same-is_latched :
    (a b c d e f : Text) (s : Store)
    → same_latch (a, b, c) (d, e, f) ≡ true
    → is_latched d e f s ≡ is_latched a b c s
same-is_latched a b c d e f s h = let (p, q, r) = same_latch_sound a b c d e f h in rw (p, q, r)

-- Latching reports whether the latch was open, closes it, and leaves every other latch alone. So the
-- second of two calls with the same key reports that nothing is to fire.
pub try_latch_fire_lem :
    (sid name label : Text) (now : ℕ) (s : Store)
    → ((try_latch_fire sid name label now s).1 ≡ not (is_latched sid name label s))
      × ((a b c : Text)
          → is_latched a b c (try_latch_fire sid name label now s).0
            ≡ (same_latch (sid, name, label) (a, b, c) || is_latched a b c s))
unfolding try_latch_fire insert_or_ignore
try_latch_fire_lem sid name label now s =
    elim (Bool-cases (any (is_fire sid name label) s.fork_fires)) [
      | inl old ↦ rw old (rw (is_latched-any sid name label s, old), λ a b c. already a b c old)
      | inr new ↦ rw new (
        rw (is_latched-any sid name label s, new),
        λ a b c.
            rw
              (
                is_latched-any a b c s,
                is_latched-any a b c (record s { fork_fires = _ }),
                any-append,
              )
              (unfold any in ground arith),
      )
    ]
  where
    already :
        (a b c : Text)
        → any (is_fire sid name label) s.fork_fires ≡ true
        → is_latched a b c s ≡ (same_latch (sid, name, label) (a, b, c) || is_latched a b c s)
    already a b c old = elim (Bool-cases (same_latch (sid, name, label) (a, b, c))) [
      | inl same ↦
          rw same
            (same-is_latched sid name label a b c s same ∙ (is_latched-any sid name label s ∙ old))
      | inr other ↦ rw other
    ]
