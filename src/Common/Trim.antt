-- ===== src/Common/Trim.antt =====
-- JavaScript's `trim`, `split` at a character, and the test `s.toLowerCase() === t` for a text `t` of
-- the letters a to z without k and i, which no letter but A to Z is lowered to.
use Prim.Native.Char.{Char, code}
use Prim.Native.String.{String}
use Prim.Native.Nat.{ℕ, ◌+◌}
use mathlib.Core.Bool.{Bool, true, false, ◌&&◌, ◌||◌, not}
use mathlib.Core.Option.{Option, none, some}
use mathlib.Core.List.{List, [], ◌∷◌}
use text.Mathlib.Text.{find?}
use donnav.Common.Tests.{is_some, leb, nat_beq, if◌then◌else◌}

between : ℕ → ℕ → ℕ → Bool
between low high c = leb low c && leb c high

-- White space and line ends, as `trim` knows them.
is_space : ℕ → Bool
unfolding between
is_space c =
    between 9 13 c
    || (nat_beq c 32
        || (nat_beq c 160
            || (nat_beq c 5760
                || (between 8192 8202 c
                    || (between 8232 8233 c
                        || (nat_beq c 8239
                            || (nat_beq c 8287 || (nat_beq c 12288 || nat_beq c 65279))))))))

trim_start : String → String
unfolding is_space
trim_start String.[] = String.[]
trim_start (String.◌∷◌ c s) =
    let rest = trim_start s in if is_space (code c) then rest else String.◌∷◌ c s

is_empty : String → Bool
is_empty String.[] = true
is_empty (String.◌∷◌ c s) = false

trim_end : String → String
unfolding is_space is_empty
trim_end String.[] = String.[]
trim_end (String.◌∷◌ c s) =
    let rest = trim_end s in
    if is_space (code c) && is_empty rest then String.[] else String.◌∷◌ c rest

unfoldable pub trim : String → String
unfolding trim_start trim_end
trim s = trim_end (trim_start s)

lower : ℕ → ℕ
unfolding between
lower c = if between 65 90 c then c + 32 else c

-- `s.toLowerCase() === t`
unfoldable pub lowers_to : String → String → Bool
unfolding lower
lowers_to String.[] String.[] = true
lowers_to (String.◌∷◌ c s) (String.◌∷◌ d t) = nat_beq (lower (code c)) (code d) && lowers_to s t
lowers_to _ _ = false

prepend : Char → List String → List String
prepend c [] = String.◌∷◌ c String.[] ∷ []
prepend c (part ∷ parts) = String.◌∷◌ c part ∷ parts

-- `s.split(c)`, for the character of a code.
unfoldable pub split_at : ℕ → String → List String
unfolding prepend
split_at separator String.[] = String.[] ∷ []
split_at separator (String.◌∷◌ c s) =
    let parts = split_at separator s in
    if nat_beq (code c) separator then String.[] ∷ parts else prepend c parts

-- Line ends, which `.` of a regular expression does not match.
is_line_end : ℕ → Bool
is_line_end c = nat_beq c 10 || (nat_beq c 13 || (nat_beq c 8232 || nat_beq c 8233))

one_line : String → Bool
unfolding is_line_end
one_line String.[] = true
one_line (String.◌∷◌ c s) = not (is_line_end (code c)) && one_line s

last : Char → String → Char
last c String.[] = c
last c (String.◌∷◌ d s) = last d s

-- `(.+)$` after `\s+` that gave back its last character, for a text of white space alone.
last_space : String → Option String
unfolding last one_line
last_space String.[] = none
last_space (String.◌∷◌ c String.[]) = none
last_space (String.◌∷◌ c (String.◌∷◌ d s)) =
    let given = String.◌∷◌ (last d s) String.[] in if one_line given then some given else none

-- The group of `^\s+(.+)$`, if the text matches.
unfoldable pub after_spaces : String → Option String
unfolding trim_start is_space is_empty one_line last_space
after_spaces String.[] = none
after_spaces (String.◌∷◌ c s) =
    if not (is_space (code c))
    then none
    else if is_empty (trim_start s)
    then last_space (String.◌∷◌ c s)
    else if one_line (trim_start s)
    then some (trim_start s)
    else none

-- What follows a word that the text begins with, whatever the case of its letters.
unfoldable pub after_word : String → String → Option String
unfolding lower
after_word String.[] s = some s
after_word (String.◌∷◌ d word) String.[] = none
after_word (String.◌∷◌ d word) (String.◌∷◌ c s) =
    let rest = after_word word s in if nat_beq (lower (code c)) (code d) then rest else none

-- `s.includes(t)`
unfoldable pub contains : String → String → Bool
contains s t = is_some (find? s t)
