-- ===== src/Security/Strength/Growth.antt =====
-- src/passman/core/security/password_strength.py: a longer password is never rated lower.
use ash_password_manager.Common.{
  ℕ, ◌≤◌, ◌<◌, Bool, true, false, ◌++◌, [], ◌∷◌, Bytes, length, any, length-append, ◌≡◌, refl,
  arith, Bool-cases, inl, inr, ltb, if◌then◌else◌, ◌↔◌,
}
use ash_password_manager.Security.Strength.{
  min_length, one_if, is_other, count_character_classes, grade, estimate_password_strength,
}
use ash_password_manager.Common.Chars.{is_lower, is_upper, is_digit}

one_if-any : (p : ℕ → Bool) (s t : Bytes) → one_if (any p s) ≤ one_if (any p (s ++ t))
one_if-any p [] t = elim (any p t) [ true ↦ omega arith | false ↦ omega arith ]
one_if-any p (c ∷ s) t = elim (Bool-cases (p c)) [
  | inl h ↦ rw h (omega arith)
  | inr h ↦ rw h (one_if-any p s t)
]

classes_grow : (s t : Bytes) → count_character_classes s ≤ count_character_classes (s ++ t)
unfolding count_character_classes
classes_grow s t =
    let a = one_if-any is_lower s t in
    let b = one_if-any is_upper s t in
    let c = one_if-any is_digit s t in let d = one_if-any is_other s t in omega arith

abbrev rated : ℕ → ℕ → ℕ
rated len variety = if ltb len min_length then 0 else grade len variety

rated_lem :
    (s : Bytes)
    → (estimate_password_strength s).score ≡ rated (length s) (count_character_classes s)
unfolding estimate_password_strength
rated_lem s = elim (Bool-cases (ltb (length s) min_length)) [
  | inl short ↦ rw short refl
  | inr long ↦ rw long refl
]

rated_grows : (m n v w : ℕ) → m ≤ n → v ≤ w → rated m v ≤ rated n w
unfolding grade
rated_grows m n v w longer richer = ground arith

rated_bounds : (n v : ℕ) → (rated n v ≤ 4) × (rated n v ≡ 0 ↔ n < 8)
unfolding grade
rated_bounds n v = (ground arith, ((λ e. ground arith), λ short. ground arith))

append_longer : (s t : Bytes) → length s ≤ length (s ++ t)
append_longer s t = omega (arith, length-append s t)

-- Typing more characters after a password never lowers its score. A score is at most 4, and it is 0
-- exactly for a password of fewer than 8 characters.
pub estimate_grows :
    (s t : Bytes)
    → ((estimate_password_strength s).score ≤ (estimate_password_strength (s ++ t)).score)
      × ((estimate_password_strength s).score ≤ 4)
      × ((estimate_password_strength s).score ≡ 0 ↔ length s < 8)
estimate_grows s t =
    rw (rated_lem s, rated_lem (s ++ t))
      (
        rated_grows (length s) (length (s ++ t)) (count_character_classes s)
            (count_character_classes (s ++ t)) (append_longer s t) (classes_grow s t),
        (rated_bounds (length s) (count_character_classes s)).0,
        (rated_bounds (length s) (count_character_classes s)).1,
      )
