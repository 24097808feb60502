-- ===== src/Hook/Sniff.antt =====
-- The hook's and the daemon's view of a prompt, and of the tags of a session.
use forksan.Prelude.{
  subst, ◌≢◌, ◌≡◌, refl, not, List, [], ◌∷◌, Option, none, some, Text, contains_text, starts_with,
  trim_start, Bool-cases, inl, inr, split,
}
use forksan.Notification.{parse_task_notification, task_notification_prefix}
use forksan.Wake.{looks_like_continuation, wake_marker}
use forksan.Events.{Event}
use forksan.Frontmatter.Values.{push_pieces-IsClean, IsClean}
use forksan.Config.Paths.{Env}
use forksan.Hook.{tags_of, sniff, tags_from_env, or_none}

-- The hook holds a prompt for genuine activity exactly if `looks_like_continuation` does not hold of it.
pub sniff-looks_like_continuation :
    (p : Text) (ev : Event) → (sniff (some p) ev).waking ≡ some (not (looks_like_continuation p))
unfolding sniff looks_like_continuation parse_task_notification
sniff-looks_like_continuation p ev = elim (Bool-cases (contains_text p wake_marker)) [
  | inl marked ↦ elim (Bool-cases (starts_with (trim_start p) task_notification_prefix)) [
    | inl e ↦ rw (marked, e) refl
    | inr e ↦ rw (marked, e) refl
  ]
  | inr plain ↦ elim (Bool-cases (starts_with (trim_start p) task_notification_prefix)) [
    | inl e ↦ rw (plain, e) refl
    | inr e ↦ rw (plain, e) refl
  ]
]

or_none-some : (xs ys : List Text) → or_none xs ≡ some ys → (xs ≡ ys) × (ys ≢ [])
unfolding or_none
or_none-some [] ys h = cc
or_none-some (x ∷ xs) [] h = cc
or_none-some (x ∷ xs) (y ∷ ys) h = (cc, λ e. cc)

-- A tag filter of the environment has a tag, no tag twice and no empty tag; an empty one is none.
pub tags_from_env-IsClean :
    (env : Env) (var : Text) (tags : List Text)
    → tags_from_env env var ≡ some tags
    → IsClean [] tags × (tags ≢ [])
unfolding tags_from_env
tags_from_env-IsClean env var tags h = read (env var) h
  where
    read : (o : Option Text) → tags_of o ≡ some tags → IsClean [] tags × (tags ≢ [])
    read none q = cc
    read (some raw) q =
        let (e, n) = or_none-some _ tags q in
        (subst (IsClean []) e (push_pieces-IsClean (split b',' raw) [] (tt, λ m. m)), n)
