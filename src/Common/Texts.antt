-- ===== src/Common/Texts.antt =====
-- Texts that the program walks character by character.
use Prim.Native.Nat.{ℕ, zero, suc, ◌+◌}
use Prim.Native.Char.{code}
use Prim.Native.String.{String, [], ◌∷◌}
use mathlib.Core.Bool.{Bool, true, false, ◌&&◌, ◌||◌}
use mathlib.Core.Option.{Option, none, some}
use metamodels.Common.Tests.{if◌then◌else◌, ◌==◌, leb}

-- `s.startsWith(p)`
unfoldable pub starts_with : String → String → Bool
starts_with [] s = true
starts_with (c ∷ p) [] = false
starts_with (c ∷ p) (d ∷ s) = code c == code d && starts_with p s

-- `s.includes(part)`
unfoldable pub contains : String → String → Bool
unfolding starts_with
contains part [] = starts_with part []
contains part (c ∷ s) = starts_with part (c ∷ s) || contains part s

-- `s.split(sep)[0]` for a separator of one character
unfoldable pub before : ℕ → String → String
before sep [] = []
before sep (c ∷ s) = let rest = before sep s in if code c == sep then [] else c ∷ rest

-- `c` in lower case, for a letter of ASCII.
abbrev pub to_lower : ℕ → ℕ
to_lower c = if leb b'A' c && leb c b'Z' then c + 32 else c

-- `\s` of a regular expression, and what `trim` takes off.
abbrev pub is_space : ℕ → Bool
is_space c =
    (leb 9 c && leb c 13)
    || c == 32
    || c == 0xa0
    || c == 0x1680
    || (leb 0x2000 c && leb c 0x200a)
    || c == 0x2028
    || c == 0x2029
    || c == 0x202f
    || c == 0x205f
    || c == 0x3000
    || c == 0xfeff

-- What follows a prefix, whatever its case: the prefix is given in lower case.
unfoldable pub after_prefix_ci : String → String → Option String
after_prefix_ci [] s = some s
after_prefix_ci (c ∷ p) [] = none
after_prefix_ci (c ∷ p) (d ∷ s) =
    let rest = after_prefix_ci p s in if code c == to_lower (code d) then rest else none

unfoldable pub trim_start : String → String
trim_start [] = []
trim_start (c ∷ s) = let rest = trim_start s in if is_space (code c) then rest else c ∷ s

abbrev pub is_empty : String → Bool
is_empty [] = true
is_empty (c ∷ s) = false

trim_end : String → String
trim_end [] = []
trim_end (c ∷ s) =
    let rest = trim_end s in if is_space (code c) && is_empty rest then [] else c ∷ rest

-- `s.trim()`
unfoldable pub trim : String → String
unfolding trim_start trim_end
trim s = trim_end (trim_start s)

-- What follows the first white space, if the text begins with one.
unfoldable pub after_spaces : String → Option String
unfolding trim_start
after_spaces [] = none
after_spaces (c ∷ s) = if is_space (code c) then some (trim_start s) else none

-- `s.replace(/\/$/, '')`
unfoldable pub drop_last_slash : String → String
drop_last_slash [] = []
drop_last_slash (c ∷ s) =
    let rest = drop_last_slash s in if code c == b'/' && is_empty s then [] else c ∷ rest

-- `s.split('/').slice(n).join('/')`: what follows the `n`-th slash, and nothing if there is none.
unfoldable pub after_slashes : ℕ → String → String
after_slashes zero s = s
after_slashes (suc n) [] = []
after_slashes (suc n) (c ∷ s) =
    let here = after_slashes n s in
    let later = after_slashes (suc n) s in if code c == b'/' then here else later
