-- ===== src/Auth/Editor/Combo.antt =====
-- src/passman/core/auth/strategy_editor.py: the grammar of a key combination, such as `ctrl+v`.
use ash_password_manager.Common.{
  ℕ, Bool, true, false, ◌&&◌, ◌||◌, List, [], ◌∷◌, ◌++◌, ◌≡◌, refl, inl, inr, arith, Bytes,
  same_bytes, all, any, All, length, leb, ◌==◌, if◌then◌else◌, ap, Bool-cases, eqb→eq, le→leb, ◌≤◌,
  ◌≢◌, ◌∙◌, ◌↔◌, sym,
}
use mathlib.Core.Bool.{false≢true}
use ash_password_manager.Common.Chars.{codes, is_lower, is_digit}

-- `value.split("+")`
abbrev push : ℕ → List Bytes → List Bytes
push c [] = (c ∷ []) ∷ []
push c (part ∷ parts) = (c ∷ part) ∷ parts

unfoldable pub split_plus : Bytes → List Bytes
split_plus [] = [] ∷ []
split_plus (c ∷ cs) = let rest = split_plus cs in if c == b'+' then [] ∷ rest else push c rest

abbrev pub is_key_char : ℕ → Bool
is_key_char c = is_lower c || is_digit c

-- `[a-z0-9]+`
abbrev is_key : Bytes → Bool
is_key [] = false
is_key (c ∷ cs) = all is_key_char (c ∷ cs)

-- `^[a-z0-9]+(\+[a-z0-9]+){1,3}$` in full: two to four keys with a `+` between them.
matches_combo : Bytes → Bool
unfolding split_plus
matches_combo value =
    let parts = split_plus value in all is_key parts && leb 2 (length parts) && leb (length parts) 4

unfoldable pub is_modifier : Bytes → Bool
is_modifier p =
    same_bytes p (codes "ctrl") || same_bytes p (codes "shift") || same_bytes p (codes "alt")

-- `parts[:-1]`
abbrev pub but_last : List Bytes → List Bytes
but_last [] = []
but_last (p ∷ []) = []
but_last (p ∷ q ∷ ps) = p ∷ but_last (q ∷ ps)

unfoldable pub validate_key_combo : Bytes → Bool
unfolding matches_combo
validate_key_combo [] = false
validate_key_combo (c ∷ cs) =
    matches_combo (c ∷ cs) && any is_modifier (but_last (split_plus (c ∷ cs)))

-- `"+".join(parts)`
abbrev pub join_plus : List Bytes → Bytes
join_plus [] = []
join_plus (p ∷ []) = p
join_plus (p ∷ q ∷ ps) = p ++ b'+' ∷ join_plus (q ∷ ps)

-- A key has at least one character, and only lower-case letters and digits.
abbrev pub IsKey : Bytes → Type 0
IsKey p = (p ≢ []) × All (λ c. is_key_char c ≡ true) p

split-ne-nil : (v : Bytes) → split_plus v ≢ []
unfolding split_plus
split-ne-nil [] e = cc
split-ne-nil (c ∷ cs) e = elim (Bool-cases (c == b'+')) [
  | inl plus ↦ ground (arith, split-ne-nil cs)
  | inr other ↦ push-ne-nil c (split_plus cs) (rw other at e)
]
  where
    push-ne-nil : (b : ℕ) (parts : List Bytes) → push b parts ≢ []
    push-ne-nil b [] h = cc
    push-ne-nil b (p ∷ ps) h = cc

join-push :
    (c : ℕ) (parts : List Bytes) → parts ≢ [] → join_plus (push c parts) ≡ c ∷ join_plus parts
join-push c [] h = absurd (h refl)
join-push c (p ∷ []) h = refl
join-push c (p ∷ q ∷ ps) h = refl

join-gap : (parts : List Bytes) → parts ≢ [] → join_plus ([] ∷ parts) ≡ b'+' ∷ join_plus parts
join-gap [] h = absurd (h refl)
join-gap (p ∷ ps) h = refl

join-split : (v : Bytes) → join_plus (split_plus v) ≡ v
unfolding split_plus
join-split [] = refl
join-split (c ∷ cs) = elim (Bool-cases (c == b'+')) [
  | inl plus ↦
      rw plus (join-gap (split_plus cs) (split-ne-nil cs) ∙ cc (join-split cs, eqb→eq c b'+' plus))
  | inr other ↦ rw other (join-push c (split_plus cs) (split-ne-nil cs) ∙ cc (join-split cs))
]

split-key : (p : Bytes) → All (λ c. is_key_char c ≡ true) p → split_plus p ≡ p ∷ []
unfolding split_plus
split-key [] h = refl
split-key (c ∷ cs) h = ground (arith, split-key cs h.1)

split-key-plus :
    (p s : Bytes)
    → All (λ c. is_key_char c ≡ true) p
    → split_plus (p ++ b'+' ∷ s) ≡ p ∷ split_plus s
unfolding split_plus
split-key-plus [] s h = refl
split-key-plus (c ∷ cs) s h = ground (arith, split-key-plus cs s h.1)

split-join :
    (p : Bytes) (ps : List Bytes) → All IsKey (p ∷ ps) → split_plus (join_plus (p ∷ ps)) ≡ p ∷ ps
split-join p [] h = split-key p h.0.1
split-join p (q ∷ ps) h =
    split-key-plus p (join_plus (q ∷ ps)) h.0.1 ∙ ap (λ xs. p ∷ xs) (split-join q ps h.1)

all→All : (p : Bytes) → all is_key_char p ≡ true → All (λ c. is_key_char c ≡ true) p
all→All [] h = tt
all→All (c ∷ cs) h = ground (arith, all→All cs)

All→all : (p : Bytes) → All (λ c. is_key_char c ≡ true) p → all is_key_char p ≡ true
All→all [] h = refl
All→all (c ∷ cs) h = ground (arith, All→all cs)

is_key→IsKey : (p : Bytes) → is_key p ≡ true → IsKey p
is_key→IsKey [] h = absurd (false≢true h)
is_key→IsKey (c ∷ cs) h = (λ e. cc, all→All (c ∷ cs) h)

IsKey→is_key : (p : Bytes) → IsKey p → is_key p ≡ true
IsKey→is_key [] h = absurd (h.0 refl)
IsKey→is_key (c ∷ cs) h = All→all (c ∷ cs) h.1

keys→All : (ps : List Bytes) → all is_key ps ≡ true → All IsKey ps
keys→All [] h = tt
keys→All (p ∷ ps) h = ground (arith, is_key→IsKey p, keys→All ps)

All→keys : (ps : List Bytes) → All IsKey ps → all is_key ps ≡ true
All→keys [] h = refl
All→keys (p ∷ ps) h = ground (arith, IsKey→is_key p, All→keys ps)

-- The parts of a valid combination: two to four keys, of which one before the last is a modifier.
abbrev pub IsCombo : List Bytes → Type 0
IsCombo parts =
    All IsKey parts
    × (2 ≤ length parts)
    × (length parts ≤ 4)
    × (any is_modifier (but_last parts) ≡ true)

test_of :
    (v : Bytes) (parts : List Bytes)
    → v ≢ []
    → split_plus v ≡ parts
    → all is_key parts ≡ true
    → IsCombo parts
    → validate_key_combo v ≡ true
unfolding validate_key_combo
test_of [] parts ne e k h = absurd (ne refl)
test_of (c ∷ cs) parts ne e k h =
    rw e (rw (k, h.3, le→leb 2 (length parts) h.1, le→leb (length parts) 4 h.2))

joined-ne-nil : (p q : Bytes) (ps : List Bytes) → IsKey p → join_plus (p ∷ q ∷ ps) ≢ []
joined-ne-nil [] q ps k e = k.0 refl
joined-ne-nil (c ∷ cs) q ps k e = cc

test→combo : (v : Bytes) → validate_key_combo v ≡ true → IsCombo (split_plus v)
unfolding validate_key_combo
test→combo [] h = absurd (false≢true h)
test→combo (c ∷ cs) h = ground (arith, keys→All (split_plus (c ∷ cs)))

combo→test : (parts : List Bytes) → IsCombo parts → validate_key_combo (join_plus parts) ≡ true
combo→test [] h = absurd (omega (arith, h.1))
combo→test (p ∷ []) h = absurd (omega (arith, h.1))
combo→test (p ∷ q ∷ ps) h =
    let parts = p ∷ q ∷ ps in
    test_of (join_plus parts) parts (joined-ne-nil p q ps h.0.0) (split-join p (q ∷ ps) h.0)
      (All→keys parts h.0) h

-- A value is accepted exactly if it is two to four keys of lower-case letters and digits, joined by
-- `+`, with `ctrl`, `shift` or `alt` among those before the last; so no other character gets through.
pub validate_key_combo_iff :
    (v : Bytes)
    → (validate_key_combo v ≡ true) ↔ ((parts : List Bytes) × (v ≡ join_plus parts) × IsCombo parts)
validate_key_combo_iff v = (
  λ h. (split_plus v, sym (join-split v), test→combo v h),
  λ (parts, e, h). rw e (combo→test parts h),
)
