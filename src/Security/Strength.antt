-- ===== src/Security/Strength.antt =====
-- src/passman/core/security/password_strength.py: the strength of a password, by its length and the classes
-- of its characters. A password is the list of its code points.
pub mod Growth
use ash_password_manager.Common.{
  ℕ, ◌+◌, Bool, true, false, not, ◌&&◌, ◌||◌, Bytes, String, length, any, ◌==◌, ltb, leb,
  if◌then◌else◌,
}
use ash_password_manager.Common.Chars.{is_lower, is_upper, is_digit}

abbrev pub min_length : ℕ
min_length = 8

abbrev pub is_other : ℕ → Bool
is_other c = not (is_lower c || is_upper c || is_digit c)

abbrev pub one_if : Bool → ℕ
one_if true = 1
one_if false = 0

unfoldable pub count_character_classes : Bytes → ℕ
count_character_classes password =
    one_if (any is_lower password)
    + one_if (any is_upper password)
    + one_if (any is_digit password)
    + one_if (any is_other password)

pub record PasswordStrength : Type 0 where
  pub score : ℕ
  pub label : String

abbrev pub label_of : ℕ → String
label_of score =
    if score == 0
    then "Very weak"
    else if score == 1
    then "Weak"
    else if score == 2
    then "Fair"
    else if score == 3
    then "Good"
    else "Strong"

unfoldable pub grade : ℕ → ℕ → ℕ
grade len variety =
    if leb 20 len && leb 3 variety
    then 4
    else if leb 16 len && leb 2 variety
    then 3
    else if leb 12 len
    then 2
    else 1

unfoldable pub estimate_password_strength : Bytes → PasswordStrength
estimate_password_strength password =
    if ltb (length password) min_length
    then record { score = 0; label = label_of 0 }
    else let score = grade (length password) (count_character_classes password) in
      record { score = score; label = label_of score }
