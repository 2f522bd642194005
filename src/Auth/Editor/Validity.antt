-- ===== src/Auth/Editor/Validity.antt =====
-- src/passman/core/auth/strategy_editor.py: what a valid strategy is.
use ash_password_manager.Common.{
  ℕ, suc, ◌≤◌, Bool, true, ◌&&◌, Option, none, some, List, [], ◌∷◌, ◌++◌, ◌≡◌, refl, ◌↔◌, inl, inr,
  arith, All, Any, any, leb→le, Bool-cases,
}
use ash_password_manager.Common.Ints.{ℤ, pos, negsuc, int_of}
use ash_password_manager.Auth.Strategy.{
  StepAction, AuthStep, type_username, type_password, type_totp, key_combo, wait,
}
use ash_password_manager.Auth.Editor.Combo.{validate_key_combo}
use ash_password_manager.Auth.Editor.{
  Account, types_secret, value_text, step_problems, problems_from, validate_strategy,
  validate_wait_ms, wait_in_range, is_valid, max_wait_ms,
}

-- What a step needs, by its action. A wait is checked also where it is disabled, and so is a key
-- combination.
abbrev pub IsFit : Account → StepAction → AuthStep → Type 0
IsFit a wait s = (ms : ℕ) × (int_of (value_text s.value) ≡ some (pos ms)) × (ms ≤ max_wait_ms)
IsFit a key_combo s = validate_key_combo (value_text s.value) ≡ true
IsFit a type_totp s = s.enabled ≡ true → a.has_totp ≡ true
IsFit a type_username s = s.enabled ≡ true → a.has_username ≡ true
IsFit a type_password s = s.enabled ≡ true → a.has_password ≡ true
IsFit a _ s = Unit

abbrev pub FitStep : Account → AuthStep → Type 0
FitStep a s = IsFit a s.action s

-- An enabled step that types something of the account.
abbrev pub IsInput : AuthStep → Type 0
IsInput s = (s.enabled ≡ true) × (types_secret s.action ≡ true)

wait_ok :
    (o : Option ℤ)
    → (wait_in_range o ≡ true) ↔ ((ms : ℕ) × (o ≡ some (pos ms)) × (ms ≤ max_wait_ms))
unfolding wait_in_range
wait_ok none = (λ h. absurd (cc h), λ (ms, e, h). absurd (cc e))
wait_ok (some (negsuc n)) = (λ h. absurd (cc h), λ (ms, e, h). absurd (cc e))
wait_ok (some (pos n)) = (λ h. (n, refl, leb→le n max_wait_ms h), λ (ms, e, h). ground arith)

fits :
    (a : Account) (i : ℕ) (act : StepAction) (s : AuthStep)
    → step_problems a i act s ≡ []
    → IsFit a act s
unfolding step_problems validate_wait_ms
fits a i wait s h = (wait_ok (int_of (value_text s.value))).0 (ground arith)
fits a i key_combo s h = ground arith
fits a i _ s h = ground arith

no_problems :
    (a : Account) (i : ℕ) (act : StepAction) (s : AuthStep)
    → IsFit a act s
    → step_problems a i act s ≡ []
unfolding step_problems validate_wait_ms
no_problems a i wait s h = let e = (wait_ok (int_of (value_text s.value))).1 h in ground (arith, e)
no_problems a i key_combo s h = ground arith
no_problems a i _ s h = ground arith

append-nil_split {ℓ} : {A : Type ℓ} (xs ys : List A) → xs ++ ys ≡ [] → (xs ≡ []) × (ys ≡ [])
append-nil_split [] ys h = (refl, h)
append-nil_split (x ∷ xs) ys h = absurd (cc h)

All-FitStep :
    (a : Account) (i : ℕ) (steps : List AuthStep)
    → problems_from a i steps ≡ []
    → All (FitStep a) steps
unfolding problems_from
All-FitStep a i [] h = tt
All-FitStep a i (s ∷ steps) h =
    let (mine, rest) =
      append-nil_split (step_problems a i s.action s) (problems_from a (suc i) steps) h in
    (fits a i s.action s mine, All-FitStep a (suc i) steps rest)

none_from :
    (a : Account) (i : ℕ) (steps : List AuthStep)
    → All (FitStep a) steps
    → problems_from a i steps ≡ []
unfolding problems_from
none_from a i [] h = refl
none_from a i (s ∷ steps) h = rw (no_problems a i s.action s h.0, none_from a (suc i) steps h.1)

any→input :
    (steps : List AuthStep)
    → any (λ s. s.enabled && types_secret s.action) steps ≡ true
    → Any IsInput steps
any→input [] h = absurd (cc h)
any→input (s ∷ steps) h = ground (arith, any→input steps)

input→any :
    (steps : List AuthStep)
    → Any IsInput steps
    → any (λ s. s.enabled && types_secret s.action) steps ≡ true
input→any [] h = absurd h
input→any (s ∷ steps) (inl h) = ground arith
input→any (s ∷ steps) (inr h) = ground (arith, input→any steps h)

valid→nil :
    (steps : List AuthStep) (a : Account) → is_valid steps a ≡ true → validate_strategy steps a ≡ []
unfolding is_valid
valid→nil steps a h = ground arith

abbrev input_test : List AuthStep → Bool
input_test steps = any (λ s. s.enabled && types_secret s.action) steps

valid→parts :
    (steps : List AuthStep) (a : Account)
    → is_valid steps a ≡ true
    → (input_test steps ≡ true) × (problems_from a 1 steps ≡ [])
unfolding validate_strategy
valid→parts steps a h =
    let e = valid→nil steps a h in
    elim (Bool-cases (input_test steps)) [
      | inl yes_input ↦ ground (arith, e)
      | inr no_input ↦ ground (arith, e)
    ]

parts→valid :
    (steps : List AuthStep) (a : Account)
    → input_test steps ≡ true
    → problems_from a 1 steps ≡ []
    → is_valid steps a ≡ true
unfolding is_valid validate_strategy
parts→valid steps a h k = rw (h, k)

-- A strategy is valid exactly if some enabled step types something of the account, every wait is a
-- whole number of milliseconds from 0 to the maximum, every key combination is in the grammar, and no
-- enabled step types what the account does not have.
pub is_valid_iff :
    (steps : List AuthStep) (a : Account)
    → (is_valid steps a ≡ true) ↔ (Any IsInput steps × All (FitStep a) steps)
is_valid_iff steps a = (
  λ h. let (one, rest) = valid→parts steps a h in (any→input steps one, All-FitStep a 1 steps rest),
  λ (one, rest). parts→valid steps a (input→any steps one) (none_from a 1 steps rest),
)
