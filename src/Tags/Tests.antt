-- ===== src/Tags/Tests.antt =====
-- `tags_allowed` on lists from the source's tests.
use forksan.Prelude.{
  ◌↔◌, true, ◌≡◌, refl, false, [], ◌∷◌, none, some, text_eq, codes, any, contains, text_beq,
}
use forksan.Tags.Filter.{IsListed, PassesWhitelist, tags_allowed_iff}
use forksan.Tags.{tags_allowed, shares_tag}

disable_wins :
    tags_allowed (codes "ci" ∷ []) (some (codes "ci" ∷ [])) (some (codes "ci" ∷ [])) ≡ false
unfolding tags_allowed shares_tag any contains text_beq
disable_wins = refl

untagged_excluded : tags_allowed [] (some (codes "ci" ∷ [])) none ≡ false
unfolding tags_allowed shares_tag any contains text_beq
untagged_excluded = refl

tags_allowed_iff_example :
    (tags_allowed (codes "ci" ∷ []) (some (codes "ci" ∷ [])) (some (codes "docs" ∷ [])) ≡ true) ↔ (
      ¬ IsListed (codes "ci" ∷ []) (some (codes "docs" ∷ []))
      × PassesWhitelist (codes "ci" ∷ []) (some (codes "ci" ∷ [])))
tags_allowed_iff_example =
    tags_allowed_iff (codes "ci" ∷ []) (some (codes "ci" ∷ [])) (some (codes "docs" ∷ []))
