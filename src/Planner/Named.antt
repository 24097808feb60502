-- ===== src/Planner/Named.antt =====
-- A wake names the selected forks, each to run now or held, and no others.
use forksan.Prelude.{sym, ap, ℕ, suc, ◌≡◌, ◌⊎◌, refl, List, [], ◌∷◌, Text, In, inl, inr}
use forksan.Schedule.{Graph}
use forksan.Store.{Store, SessionRow}
use forksan.Wake.{DueFork, HeldFork}
use forksan.Planner.{SelectedFork}
use forksan.Planner.Issue.{issue, issue_one, add_issued, Issued, due_now, preds_of}

pub record IsNamed (forks : List SelectedFork) (roots : List DueFork) (held : List HeldFork)
    : Type 0 where
  pub root_of : (r : DueFork) → In r roots → (f : SelectedFork) × In f forks × (r ≡ due_now f)
  pub held_of : (h : HeldFork) → In h held → (f : SelectedFork) × In f forks × (h.name ≡ f.name)
  pub named :
      (f : SelectedFork)
      → In f forks
      → In (due_now f) roots ⊎ ((h : HeldFork) × In h held × (h.name ≡ f.name))

add_issued-IsNamed :
    (sel : SelectedFork) (preds : List Text) (sels : List SelectedFork) (rest : Issued)
    → IsNamed sels rest.roots rest.held
    → IsNamed (sel ∷ sels) (add_issued sel preds rest).roots (add_issued sel preds rest).held
unfolding add_issued
add_issued-IsNamed sel [] sels rest k = record {
  root_of = λ r m. elim m [
    | inl e ↦ (sel, inl refl, e)
    | inr n ↦ let (f, i, e) = k.root_of r n in (f, inr i, e)
  ];
  held_of = λ h m. let (f, i, e) = k.held_of h m in (f, inr i, e);
  named = λ f m. elim m [
    | inl e ↦ inl (inl (ap due_now e))
    | inr n ↦ elim (k.named f n) [ inl i ↦ inl (inr i) | inr held ↦ inr held ]
  ];
}
add_issued-IsNamed sel (p ∷ ps) sels rest k = record {
  root_of = λ r m. let (f, i, e) = k.root_of r m in (f, inr i, e);
  held_of = λ h m. elim m [
    | inl e ↦ (sel, inl refl, ap HeldFork.name e)
    | inr n ↦ let (f, i, e) = k.held_of h n in (f, inr i, e)
  ];
  named = λ f m. elim m [
    | inl e ↦
        inr (record { name = sel.name; after = p ∷ ps }, inl refl, ap SelectedFork.name (sym e))
    | inr n ↦ elim (k.named f n) [ inl i ↦ inl i | inr (h, i, e) ↦ inr (h, inr i, e) ]
  ];
}

pub issue-IsNamed :
    (session : SessionRow) (t : ℕ) (selected : List SelectedFork) (deps : Graph) (i : ℕ)
    (sels : List SelectedFork) (s : Store)
    → IsNamed sels
        (issue session t selected deps i sels s).roots
        (issue session t selected deps i sels s).held
unfolding issue
issue-IsNamed session t selected deps i [] s = record {
  root_of = λ r m. absurd m;
  held_of = λ h m. absurd m;
  named = λ f m. absurd m;
}
issue-IsNamed session t selected deps i (sel ∷ sels) s =
    let preds = preds_of selected deps i in
    add_issued-IsNamed sel preds sels _
      (issue-IsNamed session t selected deps (suc i) sels (issue_one session t sel preds s))
