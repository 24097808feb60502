-- ===== src/Transcript/Fingerprint.antt =====
-- The fork's name is read back from the prompt that the daemon wrote.
use forksan.Prelude.{
  ◌≡◌, refl, ap, ◌∙◌, subst, false, [], ◌∷◌, ◌++◌, append_assoc, some, Text, codes, find_text,
  find_text-first, has, has-append, is_empty,
}
use forksan.Wake.{DueFork, Ids, spawn_prompt, spawn_ctx_prefix}
use forksan.Transcript.{fork_name_from_prompt}

found_name :
    (text before behind name rest : Text)
    → find_text spawn_ctx_prefix text ≡ some (before, behind)
    → find_text (codes "'") behind ≡ some (name, rest)
    → is_empty name ≡ false
    → fork_name_from_prompt text ≡ some name
unfolding fork_name_from_prompt
found_name text before behind name rest e f g = rw (fork_name_from_prompt, e, f, g) refl

intro_free : has b'\'' (codes "Context for this run: fork ") ≡ false
unfolding has
intro_free = refl

lead_free : has b'\'' (codes "Read the file ") ≡ false
unfolding has
lead_free = refl

follow_free : has b'\'' (codes " and follow the instructions in its body. ") ≡ false
unfolding has
follow_free = refl

nothing_free : has b'\'' [] ≡ false
unfolding has
nothing_free = refl

before_free :
    (path : Text)
    → has b'\'' path ≡ false
    → has b'\''
        (codes "Read the file " ++ (path ++ codes " and follow the instructions in its body. "))
      ≡ false
before_free path h =
    rw
      (
        has-append b'\'' (codes "Read the file ")
            (path ++ codes " and follow the instructions in its body. "),
        lead_free,
        has-append b'\'' path (codes " and follow the instructions in its body. "),
        h,
        follow_free,
      )
      refl

-- A text with the fingerprint, a name and a quote, after text without a quote.
read_back :
    (before name rest : Text)
    → has b'\'' before ≡ false
    → has b'\'' name ≡ false
    → is_empty name ≡ false
    → fork_name_from_prompt (before ++ (spawn_ctx_prefix ++ (name ++ (b'\'' ∷ rest)))) ≡ some name
read_back before name rest hb hn he =
    found_name _ before (name ++ (b'\'' ∷ rest)) name rest
      (find_text-first b'\'' before (codes "Context for this run: fork ") (name ++ (b'\'' ∷ rest))
        hb intro_free)
      (find_text-first b'\'' name [] rest hn nothing_free) he

-- The transcript watcher reads from a spawn prompt the name of the fork that the prompt was written
-- for, when the name is not empty and neither it nor the fork's path has a single quote.
pub fork_name_from_prompt-spawn_prompt :
    (fork : DueFork) (ids : Ids)
    → has b'\'' fork.path ≡ false
    → has b'\'' fork.name ≡ false
    → is_empty fork.name ≡ false
    → fork_name_from_prompt (spawn_prompt fork ids) ≡ some fork.name
unfolding spawn_prompt
fork_name_from_prompt-spawn_prompt fork ids hp hn he =
    let lead = codes "Read the file " in
    let follow = codes " and follow the instructions in its body. " in
    subst (λ t. fork_name_from_prompt t ≡ some fork.name)
      (append_assoc lead (fork.path ++ follow) _
        ∙ ap (λ t. lead ++ t) (append_assoc fork.path follow _))
      (read_back (lead ++ (fork.path ++ follow)) fork.name _ (before_free fork.path hp) hn he)
