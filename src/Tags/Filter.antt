-- ===== src/Tags/Filter.antt =====
-- The rules of `tags_allowed` as a statement about membership.
use forksan.Prelude.{
  ◌≡◌, refl, inl, inr, ◌↔◌, true, List, [], ◌∷◌, Option, none, some, Text, text_eq, In, any-In,
  In-any, contains, contains-In, Bool-cases,
}
use forksan.Tags.{shares_tag, is_disabled, is_enabled, tags_allowed}

-- Some tag stands on both lists.
abbrev pub Shares : List Text → List Text → Type 0
Shares ts us = (t : Text) × In t ts × In t us

abbrev pub IsListed : List Text → Option (List Text) → Type 0
IsListed ts none = ⊥
IsListed ts (some us) = Shares ts us

abbrev pub PassesWhitelist : List Text → Option (List Text) → Type 0
PassesWhitelist ts none = Unit
PassesWhitelist ts (some []) = Unit
PassesWhitelist ts (some (u ∷ us)) = Shares ts (u ∷ us)

shares_tag-Shares : (ts us : List Text) → (shares_tag ts us ≡ true) ↔ Shares ts us
unfolding shares_tag
shares_tag-Shares ts us = (
  λ h. let (t, m, q) = any-In (λ t. contains us t) ts h in (t, m, (contains-In us t).0 q),
  λ s. In-any (λ t. contains us t) ts s.0 s.1 ((contains-In us s.0).1 s.2),
)

disabled-IsListed :
    (ts : List Text) (d : Option (List Text)) → (is_disabled ts d ≡ true) ↔ IsListed ts d
unfolding is_disabled
disabled-IsListed ts none = (λ h. cc, λ h. absurd h)
disabled-IsListed ts (some us) = shares_tag-Shares ts us

enabled-PassesWhitelist :
    (ts : List Text) (e : Option (List Text)) → (is_enabled ts e ≡ true) ↔ PassesWhitelist ts e
unfolding is_enabled
enabled-PassesWhitelist ts none = (λ _. tt, λ _. refl)
enabled-PassesWhitelist ts (some []) = (λ _. tt, λ _. refl)
enabled-PassesWhitelist ts (some (u ∷ us)) = shares_tag-Shares ts (u ∷ us)

-- A fork runs exactly when none of its tags is disabled, and the enable list is unset, empty, or
-- holds one of its tags.
pub tags_allowed_iff :
    (ts : List Text) (enable disable : Option (List Text))
    → (tags_allowed ts enable disable ≡ true) ↔ (¬ IsListed ts disable × PassesWhitelist ts enable)
unfolding tags_allowed
tags_allowed_iff ts enable disable = elim (Bool-cases (is_disabled ts disable)) [
  | inl off ↦ rw off (λ h. cc, λ h. absurd (h.0 ((disabled-IsListed ts disable).0 off)))
  | inr on ↦ rw on (
    λ h.
        (λ l. cc (on, (disabled-IsListed ts disable).1 l), (enabled-PassesWhitelist ts enable).0 h),
    λ h. (enabled-PassesWhitelist ts enable).1 h.1,
  )
]
