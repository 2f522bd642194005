-- ===== src/Auth/Detection.antt =====
-- src/passman/core/auth/detection.py: how well the active window matches the identifiers of an
-- account.
pub mod High
use ash_password_manager.Common.{
  Bool, true, false, not, ◌&&◌, ◌||◌, Option, none, some, List, [], ◌∷◌, Bytes, same_bytes, keep,
  any, if◌then◌else◌,
}
use ash_password_manager.Common.Chars.{codes, strip, has_prefix, is_infix}

pub record DetectedContext : Type 0 where
  pub app_id : Option Bytes
  pub window_title : Option Bytes
  pub window_id : Option Bytes

pub data Confidence : Type 0 where
  high low unknown : Confidence

-- Python's `str.lower`, `str.casefold` and `re.search(…, re.IGNORECASE)`, which go by the tables of
-- Unicode; `none` is `re.error`.
pub record TextOps : Type 0 where
  pub lower : Bytes → Bytes
  pub casefold : Bytes → Bytes
  pub search : Bytes → Bytes → Option Bool

abbrev pub is_empty : Bytes → Bool
is_empty [] = true
is_empty (c ∷ cs) = false

abbrev pub is_none {ℓ} : {A : Type ℓ} → Option A → Bool
is_none none = true
is_none (some a) = false

-- `if value:` of an optional text.
abbrev pub given : Option Bytes → Bool
given none = false
given (some s) = not (is_empty s)

abbrev pub text_of : Option Bytes → Bytes
text_of none = []
text_of (some s) = s

-- `p.strip()` is not empty.
unfoldable pub is_usable : Bytes → Bool
is_usable p = not (is_empty (strip p))

unfoldable pub is_regex : Bytes → Bool
is_regex p = has_prefix (codes "re:") p

abbrev pub drop_three : Bytes → Bytes
drop_three (a ∷ b ∷ c ∷ s) = s
drop_three _ = []

abbrev found : Option Bool → Bool
found none = false
found (some b) = b

module _ (ops : TextOps) where
  unfoldable pub matches : Bytes → Bytes → Bool
  matches pattern value =
      if is_regex pattern
      then found (ops.search (drop_three pattern) value)
      else is_infix (ops.lower pattern) (ops.lower value)

  -- The whole window class, and no pattern.
  unfoldable pub is_exact : Bytes → Bytes → Bool
  is_exact app p = not (is_regex p) && same_bytes (ops.casefold p) (ops.casefold app)

  confidence_of : DetectedContext → List Bytes → Confidence
  confidence_of context ids =
      if given context.app_id && any (is_exact (text_of context.app_id)) ids
      then high
      else if given context.app_id && any (λ p. matches p (text_of context.app_id)) ids
      then low
      else if given context.window_title && any (λ p. matches p (text_of context.window_title)) ids
      then low
      else unknown

  abbrev is_nil : List Bytes → Bool
  is_nil [] = true
  is_nil (p ∷ ps) = false

  unfoldable pub match_confidence : DetectedContext → List Bytes → Confidence
  unfolding confidence_of
  match_confidence context app_identifiers =
      let ids = keep is_usable app_identifiers in
      if is_nil ids || is_none context.app_id && is_none context.window_title
      then unknown
      else confidence_of context ids
