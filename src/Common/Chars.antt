-- ===== src/Common/Chars.antt =====
-- Python's text operations on lists of code points.
use Prim.Native.Nat.{ℕ, ◌+◌, ◌/◌, ◌%◌}
use mathlib.Core.Bool.{Bool, true, false, ◌&&◌, ◌||◌}
use mathlib.Core.List.{[], ◌∷◌, ◌++◌, reverse}
use mathlib.Core.Option.{Option, none, some}
use Prim.Native.Char.{code}
use Prim.Native.String.{String}
use ash_password_manager.Common.Tests.{◌==◌, ltb, leb, if◌then◌else◌}
use ash_password_manager.Common.Texts.{Bytes}

-- A text literal, as its code points.
abbrev pub codes : String → Bytes
codes String.[] = []
codes (String.◌∷◌ c s) = code c ∷ codes s

abbrev pub within : ℕ → ℕ → ℕ → Bool
within lo hi c = leb lo c && leb c hi

-- `str.isspace` of one character; `\s` of a pattern is the same set.
unfoldable pub is_space : ℕ → Bool
is_space c =
    within 9 13 c
    || within 28 32 c
    || c == 0x85
    || c == 0xa0
    || c == 0x1680
    || within 0x2000 0x200a c
    || within 0x2028 0x2029 c
    || c == 0x202f
    || c == 0x205f
    || c == 0x3000

unfoldable pub drop_space : Bytes → Bytes
drop_space [] = []
drop_space (c ∷ cs) = let rest = drop_space cs in if is_space c then rest else c ∷ cs

-- `s.strip()`
unfoldable pub strip : Bytes → Bytes
unfolding drop_space is_space
strip s = reverse (drop_space (reverse (drop_space s)))

-- `s.startswith(prefix)`
unfoldable pub has_prefix : Bytes → Bytes → Bool
has_prefix [] s = true
has_prefix (p ∷ ps) [] = false
has_prefix (p ∷ ps) (c ∷ cs) = p == c && has_prefix ps cs

-- `part in s`
unfoldable pub is_infix : Bytes → Bytes → Bool
unfolding has_prefix
is_infix part [] = has_prefix part []
is_infix part (c ∷ cs) = has_prefix part (c ∷ cs) || is_infix part cs

abbrev pub is_upper : ℕ → Bool
is_upper c = within b'A' b'Z' c

abbrev pub is_lower : ℕ → Bool
is_lower c = within b'a' b'z' c

abbrev pub is_digit : ℕ → Bool
is_digit c = within b'0' b'9' c

-- One code point in UTF-8; `none` for a surrogate, which `str.encode` refuses.
utf8_char : ℕ → Option Bytes
utf8_char c =
    if ltb c 0x80
    then some (c ∷ [])
    else if ltb c 0x800
    then some ((192 + c / 64) ∷ (128 + c % 64) ∷ [])
    else if within 0xd800 0xdfff c
    then none
    else if ltb c 0x10000
    then some ((224 + c / 4096) ∷ (128 + c / 64 % 64) ∷ (128 + c % 64) ∷ [])
    else some
        ((240 + c / 262144) ∷ (128 + c / 4096 % 64) ∷ (128 + c / 64 % 64) ∷ (128 + c % 64) ∷ [])

-- `s.encode("utf-8")`
unfoldable pub utf8 : Bytes → Option Bytes
unfolding utf8_char
utf8 [] = some []
utf8 (c ∷ cs) =
    let rest = utf8 cs in
    elim (utf8_char c) [
      | none ↦ none
      | some bytes ↦ elim rest [ none ↦ none | some more ↦ some (bytes ++ more) ]
    ]
