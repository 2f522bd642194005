-- ===== src/Auth/Editor.antt =====
-- src/passman/core/auth/strategy_editor.py: editing a list of steps, and validating it. Indices are
-- signed.
pub mod Combo
pub mod Edits
pub mod Validity
use ash_password_manager.Common.{
  ℕ, zero, suc, ◌+◌, Bool, true, false, not, ◌&&◌, ◌||◌, Option, none, some, List, [], ◌∷◌, ◌++◌,
  Bytes, length, get_elem?, set, keep, any, all, ltb, leb, if◌then◌else◌,
}
use ash_password_manager.Common.Chars.{codes}
use ash_password_manager.Common.Decimal.{str}
use ash_password_manager.Common.Ints.{ℤ, pos, negsuc, ◌+ℤ◌, int_of}
use ash_password_manager.Auth.Strategy.{
  StepAction, type_username, type_password, type_totp, key_tab, key_enter, key_escape, key_combo,
  wait, focus_field, AuthStep, AuthStrategy,
}
use ash_password_manager.Auth.Editor.Combo.{validate_key_combo}

abbrev pub max_wait_ms : ℕ
max_wait_ms = 30000

unfoldable pub step_label : StepAction → Bytes
step_label type_username = codes "Type Username"
step_label type_password = codes "Type Password"
step_label type_totp = codes "Type TOTP"
step_label key_tab = codes "Tab"
step_label key_enter = codes "Enter"
step_label key_escape = codes "Escape"
step_label key_combo = codes "Key Combination"
step_label wait = codes "Wait"
step_label focus_field = codes "Focus Field"

-- MIN_WAIT_MS is 0, so a negative number is out of range.
wait_in_range : Option ℤ → Bool
wait_in_range none = false
wait_in_range (some (pos ms)) = leb ms max_wait_ms
wait_in_range (some (negsuc n)) = false

unfoldable pub validate_wait_ms : Bytes → Bool
unfolding wait_in_range
validate_wait_ms value = wait_in_range (int_of value)

-- list.insert(i, x) for an index from 0 to the length.
abbrev pub insert_at {ℓ} : {A : Type ℓ} → ℕ → A → List A → List A
insert_at zero x xs = x ∷ xs
insert_at (suc i) x [] = x ∷ []
insert_at (suc i) x (y ∷ xs) = y ∷ insert_at i x xs

-- del xs[i]
abbrev pub delete_at {ℓ} : {A : Type ℓ} → ℕ → List A → List A
delete_at i [] = []
delete_at zero (x ∷ xs) = xs
delete_at (suc i) (x ∷ xs) = x ∷ delete_at i xs

-- `0 <= index < n`, with the index as a number.
abbrev pub in_range : ℤ → ℕ → Option ℕ
in_range (pos i) n = if ltb i n then some i else none
in_range (negsuc i) n = none

-- `max(0, min(index, n))`
abbrev pub clamp : ℤ → ℕ → ℕ
clamp (pos i) n = if ltb i n then i else n
clamp (negsuc i) n = 0

unfoldable pub add_step : List AuthStep → AuthStep → Option ℤ → List AuthStep
add_step steps s none = insert_at (length steps) s steps
add_step steps s (some index) = insert_at (clamp index (length steps)) s steps

unfoldable pub remove_step : List AuthStep → ℤ → List AuthStep
remove_step steps index = elim (in_range index (length steps)) [
  | none ↦ steps
  | some i ↦ delete_at i steps
]

-- The copy stands behind the original.
abbrev duplicate_at : ℕ → Option AuthStep → List AuthStep → List AuthStep
duplicate_at i none steps = steps
duplicate_at i (some s) steps = insert_at (suc i) s steps

unfoldable pub duplicate_step : List AuthStep → ℤ → List AuthStep
duplicate_step steps index = elim (in_range index (length steps)) [
  | none ↦ steps
  | some i ↦ duplicate_at i (get_elem? steps i) steps
]

abbrev pub swap_at : ℕ → ℕ → Option AuthStep → Option AuthStep → List AuthStep → List AuthStep
swap_at i j (some a) (some b) steps = set (set steps i b) j a
swap_at i j _ _ steps = steps

move_between : Option ℕ → Option ℕ → List AuthStep → List AuthStep
move_between (some i) (some j) steps = swap_at i j (get_elem? steps i) (get_elem? steps j) steps
move_between _ _ steps = steps

unfoldable pub move_step : List AuthStep → ℤ → ℤ → List AuthStep
unfolding move_between
move_step steps index direction =
    let n = length steps in move_between (in_range index n) (in_range (index +ℤ direction) n) steps

abbrev change_at : ℕ → (AuthStep → AuthStep) → Option AuthStep → List AuthStep → List AuthStep
change_at i change none steps = steps
change_at i change (some s) steps = set steps i (change s)

-- `changes` as the function that replaces the fields.
unfoldable pub update_step : List AuthStep → ℤ → (AuthStep → AuthStep) → List AuthStep
update_step steps index change = elim (in_range index (length steps)) [
  | none ↦ steps
  | some i ↦ change_at i change (get_elem? steps i) steps
]

unfoldable pub toggle_enabled : List AuthStep → ℤ → List AuthStep
unfolding update_step
toggle_enabled steps index = update_step steps index (λ s. record s { enabled = not s.enabled })

-- The label of a step in the preview.
abbrev given_text : Option Bytes → Bytes → Bytes
given_text none or_else = or_else
given_text (some s) or_else = s

abbrev labelled : Option Bytes → Bytes → Bytes → Bytes
labelled none prefix plain = plain
labelled (some []) prefix plain = plain
labelled (some (c ∷ cs)) prefix plain = prefix ++ (c ∷ cs) ++ codes ")"

preview_label : StepAction → AuthStep → Bytes
unfolding step_label
preview_label wait s = codes "Wait " ++ given_text s.value (codes "0") ++ codes "ms"
preview_label key_combo s = labelled s.value (codes "Key (") (step_label key_combo)
preview_label focus_field s = labelled s.field_hint (codes "Focus (") (step_label focus_field)
preview_label a s = step_label a

preview_part : AuthStep → Bytes
unfolding preview_label
preview_part s =
    if s.enabled
    then preview_label s.action s
    else codes "[" ++ preview_label s.action s ++ codes "]"

-- `" -> ".join(parts)`
join_parts : List AuthStep → Bytes
unfolding preview_part
join_parts [] = []
join_parts (s ∷ []) = preview_part s
join_parts (s ∷ t ∷ steps) = preview_part s ++ codes " -> " ++ join_parts (t ∷ steps)

unfoldable pub preview_text : List AuthStep → Bytes
unfolding join_parts
preview_text [] = codes "(empty -- nothing will happen)"
preview_text (s ∷ steps) = join_parts (s ∷ steps)

-- What the account has.
pub record Account : Type 0 where
  pub has_totp : Bool
  pub has_username : Bool
  pub has_password : Bool

-- The messages, with the number of the step, from 1.
pub data Problem : Type 0 where
  no_input_step : Problem
  bad_wait bad_combo no_totp no_username no_password : ℕ → Problem

abbrev pub types_secret : StepAction → Bool
types_secret type_username = true
types_secret type_password = true
types_secret type_totp = true
types_secret _ = false

abbrev value_text : Option Bytes → Bytes
value_text none = []
value_text (some s) = s

step_problems : Account → ℕ → StepAction → AuthStep → List Problem
step_problems a i wait s =
    if not (validate_wait_ms (value_text s.value)) then bad_wait i ∷ [] else []
step_problems a i key_combo s =
    if not (validate_key_combo (value_text s.value)) then bad_combo i ∷ [] else []
step_problems a i type_totp s = if s.enabled && not a.has_totp then no_totp i ∷ [] else []
step_problems a i type_username s =
    if s.enabled && not a.has_username then no_username i ∷ [] else []
step_problems a i type_password s =
    if s.enabled && not a.has_password then no_password i ∷ [] else []
step_problems a i _ s = []

problems_from : Account → ℕ → List AuthStep → List Problem
unfolding step_problems
problems_from a i [] = []
problems_from a i (s ∷ steps) = step_problems a i s.action s ++ problems_from a (suc i) steps

unfoldable pub validate_strategy : List AuthStep → Account → List Problem
unfolding problems_from
validate_strategy steps a =
    (if any (λ s. s.enabled && types_secret s.action) steps then [] else no_input_step ∷ [])
    ++ problems_from a 1 steps

abbrev is_nil : List Problem → Bool
is_nil [] = true
is_nil (p ∷ ps) = false

unfoldable pub is_valid : List AuthStep → Account → Bool
is_valid steps a = is_nil (validate_strategy steps a)
