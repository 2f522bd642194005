-- ===== src/Totp/Base32.antt =====
-- src/passman/core/totp/totp.py: the base32 form of a secret; base64.b32decode of the standard
-- library.
use ash_password_manager.Common.{
  ℕ, zero, suc, ◌+◌, ◌-◌, ◌*◌, ◌/◌, ◌%◌, ◌^◌, Bool, true, false, not, ◌&&◌, ◌||◌, Option, none,
  some, [], ◌∷◌, ◌++◌, Bytes, length, replicate, ◌==◌, keep, if◌then◌else◌,
}
use ash_password_manager.Common.Chars.{is_space, is_upper, within}

-- The value of one of the letters `A` to `Z` and the digits `2` to `7`.
abbrev pub is_letter : ℕ → Bool
is_letter c = is_upper c || within b'2' b'7' c

abbrev value : ℕ → ℕ
value c = if is_upper c then c - b'A' else c - b'2' + 26

-- `^[A-Z2-7]+=*$`, matched in full: letters, and then only padding.
only_padding : Bytes → Bool
only_padding [] = true
only_padding (c ∷ cs) = c == b'=' && only_padding cs

letters_then_padding : Bytes → Bool
unfolding only_padding
letters_then_padding [] = true
letters_then_padding (c ∷ cs) =
    let more = letters_then_padding cs in if is_letter c then more else only_padding (c ∷ cs)

unfoldable pub is_base32 : Bytes → Bool
unfolding letters_then_padding
is_base32 [] = false
is_base32 (c ∷ cs) = is_letter c && letters_then_padding cs

pad_count : Bytes → ℕ
pad_count [] = 0
pad_count (c ∷ cs) = let n = pad_count cs in if c == b'=' then suc n else n

-- The bytes of one group of eight letters, of which the last `pads` are padding: five bytes, less
-- those that hold only padding.
abbrev kept_of : ℕ → Option ℕ
kept_of n =
    if n == 0
    then some 5
    else if n == 1
    then some 4
    else if n == 3
    then some 3
    else if n == 4
    then some 2
    else if n == 6
    then some 1
    else none

group : ℕ → Bytes → ℕ
group acc [] = acc
group acc (c ∷ cs) = group (acc * 32 + (if c == b'=' then 0 else value c)) cs

abbrev high_bytes : ℕ → ℕ → Bytes
high_bytes zero acc = []
high_bytes (suc k) acc = (acc / 2 ^ 32 % 256) ∷ high_bytes k (acc * 256 % 2 ^ 40)

-- Groups of eight from the front. `none` is binascii.Error: a length that is no multiple of eight, or
-- a count of padding that no input gives.
unfoldable pub b32decode : Bytes → Option Bytes
unfolding group pad_count
b32decode [] = some []
b32decode (a ∷ b ∷ c ∷ d ∷ e ∷ f ∷ g ∷ h ∷ []) =
    let block = a ∷ b ∷ c ∷ d ∷ e ∷ f ∷ g ∷ h ∷ [] in
    elim (kept_of (pad_count block)) [ none ↦ none | some k ↦ some (high_bytes k (group 0 block)) ]
b32decode (a ∷ b ∷ c ∷ d ∷ e ∷ f ∷ g ∷ h ∷ more) =
    let block = a ∷ b ∷ c ∷ d ∷ e ∷ f ∷ g ∷ h ∷ [] in
    let rest = b32decode more in
    elim rest [ none ↦ none | some bytes ↦ some (high_bytes 5 (group 0 block) ++ bytes) ]
b32decode _ = none

-- `re.sub(r"[\s-]", "", raw)`
cleaned : Bytes → Bytes
cleaned raw = keep (λ c. not (is_space c || c == b'-')) raw

-- `(-n) % 8`
abbrev padding : ℕ → ℕ
padding n = (8 - n % 8) % 8

-- `none` is InvalidTotpSecretError. `upper` is `str.upper`.
unfoldable pub normalize_base32_secret : (Bytes → Bytes) → Bytes → Option Bytes
unfolding cleaned is_base32 is_space
normalize_base32_secret upper raw =
    let s = upper (cleaned raw) in
    let padded = s ++ replicate (padding (length s)) b'=' in
    if not (is_base32 padded)
    then none
    else (elim (b32decode padded) [ none ↦ none | some bytes ↦ some padded ])
