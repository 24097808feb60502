-- ===== src/Client/Order.antt =====
-- Which daemons the command line retires: those of a lower version.
use forksan.Prelude.{
  ℕ, ◌<◌, ◌≡◌, ◌↔◌, ◌⊎◌, refl, ap, ◌∙◌, sym, true, [], ◌∷◌, ◌++◌, Text, codes, inl, inr, In, arith,
  word, nat_eq, to_string, parse_u64-to_string, to_string-IsNumeric, IsNumeric, IsNumeric-IsSolid,
  IsSolid, All-append, trim-solid, split-join, join, is_digit, is_whitespace, append-nil,
}
use forksan.Protocol.{hello_info}
use forksan.Client.{
  Version, version_lt, semver_lt, parse_version, is_outdated, ok, part, leading_digits,
}

-- The numbers of a version fit a `u64`.
abbrev pub FitsWord : Version → Type 0
FitsWord v = (v.major < word) × (v.minor < word) × (v.patch < word)

-- What may follow the last number, such as `-dev`.
pub record IsSuffix (suffix : Text) : Type 0 where
  pub solid : IsSolid suffix
  pub no_dot : ¬ In b'.' suffix
  pub no_digit : leading_digits suffix ≡ []

-- `x.y.z`, and what follows it.
abbrev pub print : Version → Text → Text
print v suffix =
    join (codes ".") (to_string v.major ∷ to_string v.minor ∷ (to_string v.patch ++ suffix) ∷ [])

-- The order of versions, number by number.
abbrev pub IsBelow : Version → Version → Type 0
IsBelow a b =
    (a.major < b.major)
    ⊎ ((a.major ≡ b.major) × ((a.minor < b.minor) ⊎ ((a.minor ≡ b.minor) × (a.patch < b.patch))))

leading_digits-append :
    (digits s : Text)
    → IsNumeric digits
    → leading_digits s ≡ []
    → leading_digits (digits ++ s) ≡ digits
unfolding leading_digits
leading_digits-append [] s h e = e
leading_digits-append (c ∷ digits) s h e = rw (h.0, leading_digits-append digits s h.1 e) refl

part-to_string : (n : ℕ) (s : Text) → n < word → leading_digits s ≡ [] → part (to_string n ++ s) ≡ n
unfolding part
part-to_string n s h e =
    rw (leading_digits-append (to_string n) s (to_string-IsNumeric n) e, parse_u64-to_string n h)
      refl

part-to_string_alone : (n : ℕ) → n < word → part (to_string n) ≡ n
part-to_string_alone n h =
    ap part (sym (append-nil _)) ∙ part-to_string n [] h (unfold leading_digits in refl)

digit-no_dot : (s : Text) → IsNumeric s → ¬ In b'.' s
digit-no_dot [] h m = m
digit-no_dot (c ∷ s) h (inl e) = not_digit (ap is_digit e ∙ h.0)
  where
    not_digit : ¬ (is_digit b'.' ≡ true)
    not_digit q = unfold is_digit in cc
digit-no_dot (c ∷ s) h (inr m) = digit-no_dot s h.1 m

In-append : (c : ℕ) (s t : Text) → In c (s ++ t) → In c s ⊎ In c t
In-append c [] t m = inr m
In-append c (d ∷ s) t (inl e) = inl (inl e)
In-append c (d ∷ s) t (inr m) = elim (In-append c s t m) [ inl n ↦ inl (inr n) | inr n ↦ inr n ]

to_string-IsSolid : (n : ℕ) → IsSolid (to_string n)
to_string-IsSolid n = IsNumeric-IsSolid (to_string n) (to_string-IsNumeric n)

print-IsSolid : (v : Version) (suffix : Text) → IsSuffix suffix → IsSolid (print v suffix)
unfolding join
print-IsSolid v suffix k = All-append _ (to_string v.major) _ (to_string-IsSolid v.major) (
  unfold is_whitespace in refl,
  All-append _ (to_string v.minor) _ (to_string-IsSolid v.minor) (
    unfold is_whitespace in refl,
    All-append _ (to_string v.patch) suffix (to_string-IsSolid v.patch) k.solid,
  ),
)

parse_version-print :
    (v : Version) (suffix : Text)
    → FitsWord v
    → IsSuffix suffix
    → parse_version (print v suffix) ≡ v
unfolding parse_version
parse_version-print v suffix (hx, hy, hz) k =
    let no_dot : (n : ℕ) → ¬ In b'.' (to_string n) =
      λ n. digit-no_dot (to_string n) (to_string-IsNumeric n) in
    rw
      (
        trim-solid (print v suffix) (print-IsSolid v suffix k),
        split-join b'.' (to_string v.major) (to_string v.minor ∷ (to_string v.patch ++ suffix) ∷ [])
            (
              no_dot v.major,
              (
                no_dot v.minor,
                (
                  λ m. elim (In-append b'.' (to_string v.patch) suffix m) [
                    | inl n ↦ no_dot v.patch n
                    | inr n ↦ k.no_dot n
                  ],
                  tt,
                ),
              ),
            ),
        part-to_string_alone v.major hx,
        part-to_string_alone v.minor hy,
        part-to_string v.patch suffix hz k.no_digit,
      )
      refl

version_lt_iff : (a b : Version) → version_lt a b ≡ true ↔ IsBelow a b
unfolding version_lt
version_lt_iff a b = (λ e. ground (arith, e), λ e. ground (arith, e))

-- A daemon that names its version, three numbers that fit a u64 and a suffix without dots, blanks or a
-- leading digit, is retired exactly when its numbers are below those of the command line: the major
-- ones first, then the minor ones, then the patches, each as a number, and whatever the suffixes.
pub is_outdated-print :
    (mine theirs : Version) (suffix suffix' : Text)
    → FitsWord mine
    → FitsWord theirs
    → IsSuffix suffix
    → IsSuffix suffix'
    → is_outdated (print mine suffix) (ok (hello_info (print theirs suffix'))) ≡ true
      ↔ IsBelow theirs mine
unfolding is_outdated semver_lt
is_outdated-print mine theirs suffix suffix' hm ht k k' =
    rw (parse_version-print mine suffix hm k, parse_version-print theirs suffix' ht k')
      (version_lt_iff theirs mine)
