-- ===== src/Common/Base64.antt =====
-- base64.urlsafe_b64encode, and base64.b64decode with `altchars=b"-_"` and `validate=True`, of the
-- standard library.
use Prim.Native.Nat.{ℕ, zero, suc, ◌+◌, ◌-◌, ◌*◌, ◌/◌, ◌%◌, ◌<◌}
use mathlib.Core.Path.{◌≡◌, refl}
use mathlib.Core.Bool.{Bool, true, false, ◌&&◌, ◌||◌}
use mathlib.Core.List.{[], ◌∷◌}
use mathlib.Core.Option.{Option, none, some}
use native.Mathlib.Omega.{arith}
use ash_password_manager.Common.Tests.{◌==◌, ltb, if◌then◌else◌}
use ash_password_manager.Common.Texts.{Bytes}
use ash_password_manager.Common.Preds.{All}
use ash_password_manager.Common.Chars.{is_upper, is_lower, is_digit}

letter : ℕ → ℕ
letter v =
    if ltb v 26
    then b'A' + v
    else if ltb v 52
    then b'a' + (v - 26)
    else if ltb v 62
    then b'0' + (v - 52)
    else if v == 62
    then b'-'
    else b'_'

letter_value : ℕ → Option ℕ
letter_value c =
    if is_upper c
    then some (c - b'A')
    else if is_lower c
    then some (c - b'a' + 26)
    else if is_digit c
    then some (c - b'0' + 52)
    else if c == b'-' || c == b'+'
    then some 62
    else if c == b'_' || c == b'/'
    then some 63
    else none

unfoldable pub b64encode : Bytes → Bytes
unfolding letter
b64encode [] = []
b64encode (x ∷ []) = letter (x / 4) ∷ letter (x % 4 * 16) ∷ b'=' ∷ b'=' ∷ []
b64encode (x ∷ y ∷ []) =
    letter (x / 4) ∷ letter (x % 4 * 16 + y / 16) ∷ letter (y % 16 * 4) ∷ b'=' ∷ []
b64encode (x ∷ y ∷ z ∷ rest) =
    letter (x / 4)
    ∷ letter (x % 4 * 16 + y / 16)
    ∷ letter (y % 16 * 4 + z / 64)
    ∷ letter (z % 64)
    ∷ b64encode rest

-- The bytes of three and of four letters; of the last letter, the bits beyond them are dropped.
abbrev pair_of : Option ℕ → Option ℕ → Option ℕ → Option Bytes
pair_of (some u) (some v) (some w) = some ((u * 4 + v / 16) ∷ (v % 16 * 16 + w / 4) ∷ [])
pair_of u v w = none

abbrev one_of : Option ℕ → Option ℕ → Option Bytes
one_of (some u) (some v) = some ((u * 4 + v / 16) ∷ [])
one_of u v = none

abbrev three_of : Option ℕ → Option ℕ → Option ℕ → Option ℕ → Option Bytes → Option Bytes
three_of (some u) (some v) (some w) (some t) (some rest) =
    some ((u * 4 + v / 16) ∷ (v % 16 * 16 + w / 4) ∷ (w % 4 * 64 + t) ∷ rest)
three_of u v w t rest = none

abbrev padded : ℕ → ℕ → ℕ → Option Bytes
padded a b c =
    if c == b'='
    then one_of (letter_value a) (letter_value b)
    else pair_of (letter_value a) (letter_value b) (letter_value c)

abbrev is_nil : Bytes → Bool
is_nil [] = true
is_nil (c ∷ cs) = false

-- `none` is binascii.Error: padding stands only at the end, and completes the last group of four.
unfoldable pub b64decode : Bytes → Option Bytes
unfolding letter_value
b64decode [] = some []
b64decode (a ∷ b ∷ c ∷ d ∷ rest) =
    let more = b64decode rest in
    if d == b'='
    then (if is_nil rest then padded a b c else none)
    else three_of (letter_value a) (letter_value b) (letter_value c) (letter_value d) more
b64decode cs = none

holds_below : ℕ → Bool
holds_below zero = true
holds_below (suc v) =
    holds_below v && elim (letter_value (letter v)) [ none ↦ false | some u ↦ u == v ]

holds_below_lem : (n v : ℕ) → holds_below n ≡ true → v < n → letter_value (letter v) ≡ some v
unfolding holds_below
holds_below_lem zero v h lt = absurd (omega arith)
holds_below_lem (suc n) v h lt = ground (arith, holds_below_lem n v)

all_letters : holds_below 64 ≡ true
unfolding holds_below letter_value letter
all_letters = refl

letter_value-letter : (v : ℕ) → v < 64 → letter_value (letter v) ≡ some v
letter_value-letter v h = holds_below_lem 64 v all_letters h

is_pad-letter : (v : ℕ) → (letter v == b'=') ≡ false
unfolding letter
is_pad-letter v = ground arith

abbrev pub IsByte : ℕ → Type 0
IsByte b = b < 256

-- What is encoded is decoded.
pub b64decode-b64encode : (xs : Bytes) → All IsByte xs → b64decode (b64encode xs) ≡ some xs
unfolding b64decode b64encode
b64decode-b64encode [] h = refl
b64decode-b64encode (x ∷ []) h =
    rw (letter_value-letter (x / 4) (omega arith), letter_value-letter (x % 4 * 16) (omega arith))
      (ground arith)
b64decode-b64encode (x ∷ y ∷ []) h =
    rw
      (
        is_pad-letter (y % 16 * 4),
        letter_value-letter (x / 4) (omega arith),
        letter_value-letter (x % 4 * 16 + y / 16) (omega arith),
        letter_value-letter (y % 16 * 4) (omega arith),
      )
      (ground arith)
b64decode-b64encode (x ∷ y ∷ z ∷ rest) h =
    rw
      (
        is_pad-letter (z % 64),
        letter_value-letter (x / 4) (omega arith),
        letter_value-letter (x % 4 * 16 + y / 16) (omega arith),
        letter_value-letter (y % 16 * 4 + z / 64) (omega arith),
        letter_value-letter (z % 64) (omega arith),
        b64decode-b64encode rest h.1.1.1,
      )
      (ground arith)
