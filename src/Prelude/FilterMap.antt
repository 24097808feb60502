-- ===== src/Prelude/FilterMap.antt =====
-- The members of what `filter_map` keeps.
use mathlib.Core.Path.{◌≡◌, refl, ap, sym, ◌∙◌}
use mathlib.Core.Logic.{inl, inr, ◌↔◌}
use mathlib.Core.List.{List, [], ◌∷◌, filter_map}
use mathlib.Core.Option.{Option, some}
use forksan.Prelude.Tests.{Option-cases}
use forksan.Prelude.Lists.{In}

pub In-filter_map :
    {A B : Type 0} (f : A → Option B) (d : B) (xs : List A)
    → In d (filter_map f xs) ↔ ((a : A) × In a xs × (f a ≡ some d))
unfolding filter_map
In-filter_map f d [] = (λ m. absurd m, λ (a, m, e). m)
In-filter_map f d (x ∷ xs) =
    let ih = In-filter_map f d xs in
    elim (Option-cases (f x)) [
      | inl miss ↦ rw miss (
        λ m. let (a, n, e) = ih.0 m in (a, inr n, e),
        λ (a, m, e). elim m [ inl q ↦ cc (ap f q) | inr n ↦ ih.1 (a, n, e) ],
      )
      | inr (y, hit) ↦ rw hit (
        λ m. elim m [
          | inl q ↦ (x, inl refl, hit ∙ ap some (sym q))
          | inr n ↦ let (a, k, e) = ih.0 n in (a, inr k, e)
        ],
        λ (a, m, e). elim m [ inl q ↦ inl (cc (ap f q)) | inr n ↦ inr (ih.1 (a, n, e)) ],
      )
    ]
