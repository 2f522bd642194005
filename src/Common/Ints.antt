-- ===== src/Common/Ints.antt =====
-- Signed integers over the native numbers, and Python's `int` of a text with ASCII digits.
use Prim.Native.Nat.{ℕ, suc, ◌+◌, ◌-◌, ◌*◌}
use mathlib.Core.Bool.{Bool, true, false, ◌&&◌}
use mathlib.Core.List.{[], ◌∷◌}
use mathlib.Core.Option.{Option, none, some}
use ash_password_manager.Common.Tests.{◌==◌, leb, if◌then◌else◌}
use ash_password_manager.Common.Texts.{Bytes}
use ash_password_manager.Common.Chars.{is_digit, strip}

-- `negsuc n` is -(n + 1).
pub data ℤ : Type 0 where
  pos : ℕ → ℤ
  negsuc : ℕ → ℤ

abbrev pub pos_part : ℤ → ℕ
pos_part (pos n) = n
pos_part (negsuc n) = 0

abbrev pub neg_part : ℤ → ℕ
neg_part (pos n) = 0
neg_part (negsuc n) = suc n

abbrev pub sub_ℕ : ℕ → ℕ → ℤ
sub_ℕ a b = if leb b a then pos (a - b) else negsuc (b - a - 1)

infixl 65 ◌+ℤ◌
abbrev pub ◌+ℤ◌ : ℤ → ℤ → ℤ
a +ℤ b = sub_ℕ (pos_part a + pos_part b) (neg_part a + neg_part b)

-- `int` refuses more digits than sys.int_info.default_max_str_digits.
abbrev max_str_digits : ℕ
max_str_digits = 4300

-- The digits of a text, with single underscores between them; `count` digits have been read, and
-- `after` says that the last character was one.
digits_from : ℕ → ℕ → Bool → Bytes → Option ℕ
digits_from n count after [] = if after && leb count max_str_digits then some n else none
digits_from n count after (c ∷ cs) =
    let digit = digits_from (n * 10 + (c - b'0')) (suc count) true cs in
    let gap = digits_from n count false cs in
    if is_digit c then digit else if c == b'_' && after then gap else none

signed : Bytes → Option ℤ
unfolding digits_from
signed [] = none
signed (c ∷ cs) =
    if c == b'-'
    then (elim (digits_from 0 0 false cs) [ none ↦ none | some n ↦ some (sub_ℕ 0 n) ])
    else (elim (digits_from 0 0 false (if c == b'+' then cs else c ∷ cs)) [
      | none ↦ none
      | some n ↦ some (pos n)
    ])

-- `int(text)`; `none` is the ValueError.
unfoldable pub int_of : Bytes → Option ℤ
unfolding signed strip
int_of s = signed (strip s)
