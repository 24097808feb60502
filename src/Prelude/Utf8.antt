-- ===== src/Prelude/Utf8.antt =====
-- UTF-8 as `String` checks it: how many bytes a character still needs, its bits so far, and the range of the next byte.
use Prim.Native.Nat.{ℕ, zero, suc, ◌+◌, ◌-◌, ◌*◌}
use mathlib.Core.Bool.{Bool, ◌&&◌}
use mathlib.Core.List.{List, [], ◌∷◌}
use mathlib.Core.Option.{Option, none, some}
use forksan.Prelude.Tests.{if◌then◌else◌, ltb, leb, nat_beq}
use forksan.Prelude.Strings.{Text}

abbrev push_char : ℕ → Option Text → Option Text
push_char c none = none
push_char c (some s) = some (c ∷ s)

abbrev in_range : ℕ → ℕ → ℕ → Bool
in_range lo hi b = leb lo b && leb b hi

-- `decode need bits lo hi bytes`. Overlong forms, surrogates and code points above 10FFFF are refused.
decode : ℕ → ℕ → ℕ → ℕ → List ℕ → Option Text
decode zero bits lo hi [] = some []
decode (suc need) bits lo hi [] = none
decode zero bits lo hi (b ∷ s) =
    let ascii = push_char b (decode 0 0 128 191 s) in
    let two = decode 1 (b - 192) 128 191 s in
    let first_of_three = decode 2 (b - 224) 160 191 s in
    let surrogates = decode 2 (b - 224) 128 159 s in
    let three = decode 2 (b - 224) 128 191 s in
    let first_of_four = decode 3 (b - 240) 144 191 s in
    let last_of_four = decode 3 (b - 240) 128 143 s in
    let four = decode 3 (b - 240) 128 191 s in
    if ltb b 128
    then ascii
    else if in_range 194 223 b
    then two
    else if nat_beq b 224
    then first_of_three
    else if nat_beq b 237
    then surrogates
    else if in_range 225 239 b
    then three
    else if nat_beq b 240
    then first_of_four
    else if nat_beq b 244
    then last_of_four
    else if in_range 241 243 b
    then four
    else none
decode (suc need) bits lo hi (b ∷ s) =
    let bits' = bits * 64 + (b - 128) in
    let last = push_char bits' (decode 0 0 128 191 s) in
    let more = decode need bits' 128 191 s in
    if in_range lo hi b then (if nat_beq need 0 then last else more) else none

-- `std::str::from_utf8`
unfoldable pub from_utf8 : List ℕ → Option Text
unfolding decode
from_utf8 s = decode 0 0 128 191 s
