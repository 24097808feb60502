-- ===== src/Transcript/Lines.antt =====
-- transcript.rs, `read_delta`: the lines of a file that grows.
use forksan.Prelude.{
  ℕ, zero, suc, ◌+◌, ◌≤◌, ◌≡◌, refl, sym, ap, ◌∙◌, false, List, [], ◌∷◌, ◌++◌, arith, length,
  append_assoc, Bool-cases, inl, inr, nat_beq,
}
use forksan.Transcript.Read.{drop, Lines, prepend, split_lines}

abbrev pub bytes_of : List (List ℕ) → ℕ
bytes_of [] = 0
bytes_of (l ∷ ls) = length l + bytes_of ls

unfoldable pub rejoined : List (List ℕ) → List ℕ → List ℕ
rejoined [] p = p
rejoined (l ∷ ls) p = l ++ rejoined ls p

pub rejoined-prepend :
    (b : ℕ) (ls : List (List ℕ)) (p : List ℕ)
    → rejoined (prepend b ls p).complete (prepend b ls p).partial ≡ b ∷ rejoined ls p
unfolding rejoined prepend
rejoined-prepend b [] p = refl
rejoined-prepend b (l ∷ ls) p = refl

-- The lines and the rest behind them are the bytes.
pub rejoined-split_lines :
    (s : List ℕ) → rejoined (split_lines s).complete (split_lines s).partial ≡ s
unfolding split_lines rejoined
rejoined-split_lines [] = refl
rejoined-split_lines (b ∷ s) = elim (Bool-cases (nat_beq b 10)) [
  | inl e ↦ rw e (ap (λ t. b ∷ t) (rejoined-split_lines s))
  | inr e ↦ rw e (rejoined-prepend b _ _ ∙ ap (λ t. b ∷ t) (rejoined-split_lines s))
]

abbrev pub behind : List (List ℕ) → Lines → Lines
behind ls rest = record { complete = ls ++ rest.complete; partial = rest.partial }

pub prepend-behind :
    (b : ℕ) (ls : List (List ℕ)) (p more : List ℕ)
    → nat_beq b 10 ≡ false
    → prepend b (ls ++ (split_lines (p ++ more)).complete) (split_lines (p ++ more)).partial
      ≡ behind (prepend b ls p).complete (split_lines ((prepend b ls p).partial ++ more))
unfolding prepend split_lines
prepend-behind b [] p more e = rw (e, split_lines) refl
prepend-behind b (l ∷ ls) p more e = refl

-- What is appended goes on where the last line broke off.
pub split_lines-append :
    (s more : List ℕ)
    → split_lines (s ++ more)
      ≡ behind (split_lines s).complete (split_lines ((split_lines s).partial ++ more))
unfolding split_lines
split_lines-append [] more = refl
split_lines-append (b ∷ s) more = elim (Bool-cases (nat_beq b 10)) [
  | inl e ↦ rw e (ap (λ x. behind ((b ∷ []) ∷ []) x) (split_lines-append s more))
  | inr e ↦ rw e (
      ap (λ (x : Lines). prepend b x.complete x.partial) (split_lines-append s more)
      ∙ prepend-behind b _ _ more e)
]

pub length-drop :
    {A : Type 0} (n : ℕ) (s : List A) → n ≤ length s → length (drop n s) + n ≡ length s
unfolding drop
length-drop zero s h = omega arith
length-drop (suc n) [] h = absurd (omega arith)
length-drop (suc n) (x ∷ s) h = omega (arith, length-drop n s)

pub drop-append :
    {A : Type 0} (n : ℕ) (s more : List A) → n ≤ length s → drop n (s ++ more) ≡ drop n s ++ more
unfolding drop
drop-append zero s more h = refl
drop-append (suc n) [] more h = absurd (omega arith)
drop-append (suc n) (x ∷ s) more h = drop-append n s more (omega arith)

pub drop-nil : {A : Type 0} (n : ℕ) → drop {A = A} n [] ≡ []
unfolding drop
drop-nil zero = refl
drop-nil (suc n) = refl

pub drop-drop : {A : Type 0} (n k : ℕ) (s : List A) → drop k (drop n s) ≡ drop (n + k) s
unfolding drop
drop-drop zero k s = let e : 0 + k ≡ k = omega arith in sym (ap (λ m. drop m s) e)
drop-drop (suc n) k [] = drop-nil k ∙ sym (drop-nil (suc n + k))
drop-drop (suc n) k (x ∷ s) =
    let e : suc n + k ≡ suc (n + k) = omega arith in
    drop-drop n k s ∙ sym (ap (λ m. drop m (x ∷ s)) e)

pub drop-whole : {A : Type 0} (l s : List A) (n : ℕ) → drop (length l + n) (l ++ s) ≡ drop n s
unfolding drop
drop-whole [] s n = let e : 0 + n ≡ n = omega arith in ap (λ m. drop m s) e
drop-whole (x ∷ l) s n =
    let e : suc (length l) + n ≡ suc (length l + n) = omega arith in
    ap (λ m. drop m (x ∷ (l ++ s))) e ∙ drop-whole l s n

-- Behind the complete lines stand the partial one and what was appended.
pub drop-rejoined :
    (ls : List (List ℕ)) (p more : List ℕ) → drop (bytes_of ls) (rejoined ls p ++ more) ≡ p ++ more
unfolding rejoined drop
drop-rejoined [] p more = refl
drop-rejoined (l ∷ ls) p more =
    ap (drop (length l + bytes_of ls)) (append_assoc l (rejoined ls p) more)
    ∙ (drop-whole l (rejoined ls p ++ more) (bytes_of ls) ∙ drop-rejoined ls p more)

pub length-append : (xs ys : List ℕ) → length (xs ++ ys) ≡ length xs + length ys
length-append [] ys = omega arith
length-append (x ∷ xs) ys = omega (arith, length-append xs ys)

pub bytes_of-le : (ls : List (List ℕ)) (p : List ℕ) → bytes_of ls ≤ length (rejoined ls p)
unfolding rejoined
bytes_of-le [] p = omega arith
bytes_of-le (l ∷ ls) p = omega (arith, length-append l (rejoined ls p), bytes_of-le ls p)
