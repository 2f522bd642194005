-- ===== src/Auth/Strategy/Json.antt =====
-- src/passman/core/auth/strategy.py: the JSON form of a strategy. The text itself is written by
-- json.dumps and read by json.loads, which are parameters.
pub mod Survival
pub mod Causes
pub mod Errors
pub mod Tests
use ash_password_manager.Common.{
  Bool, true, false, Option, none, some, List, [], ◌∷◌, Bytes, same_bytes, if◌then◌else◌, inl, inr,
}
use ash_password_manager.Common.Chars.{codes}
use ash_password_manager.Common.Ints.{ℤ, pos}
use ash_password_manager.Common.Json.{
  Json, Items, null, boolean, integer, text, array, object, nil, cons, end, field, Exception,
  key_error, value_error, type_error, Try, ◌>>=◌, item, get_or, truth, int_from, each, typed_text,
  typed_optional, optional_text, is_empty_text,
}
use ash_password_manager.Auth.Strategy.{
  StepAction, type_username, type_password, type_totp, key_tab, key_enter, key_escape, key_combo,
  wait, focus_field, AuthStep, AuthStrategy, default_strategy,
}

abbrev pub action_name : StepAction → Bytes
action_name type_username = codes "type_username"
action_name type_password = codes "type_password"
action_name type_totp = codes "type_totp"
action_name key_tab = codes "key_tab"
action_name key_enter = codes "key_enter"
action_name key_escape = codes "key_escape"
action_name key_combo = codes "key_combo"
action_name wait = codes "wait"
action_name focus_field = codes "focus_field"

unfoldable pub step_dict : AuthStep → Json
step_dict s = object (
    field "action" (text (action_name s.action)) (
      field "value" (optional_text s.value) (
        field "field_hint" (optional_text s.field_hint) (
          field "timeout_ms" (integer s.timeout_ms)
            (field "retries" (integer s.retries) (field "enabled" (boolean s.enabled) end))))))

abbrev pub actions : List StepAction
actions =
    type_username ∷ type_password ∷ type_totp ∷ key_tab ∷ key_enter ∷ key_escape ∷ key_combo ∷ wait
    ∷ focus_field ∷ []

abbrev pub action_in : Bytes → List StepAction → Try StepAction
action_in s [] = inl value_error
action_in s (a ∷ as') =
    let rest = action_in s as' in if same_bytes s (action_name a) then inr a else rest

-- `StepAction(value)`
abbrev pub action_of : Json → Try StepAction
action_of (text s) = action_in s actions
action_of j = inl value_error

unfoldable pub step_from_dict : Json → Try AuthStep
unfolding same_bytes
step_from_dict d = do
  name ← item "action" d
  action ← action_of name
  raw_value ← get_or "value" null d
  value ← typed_optional raw_value
  raw_hint ← get_or "field_hint" null d
  hint ← typed_optional raw_hint
  raw_timeout ← get_or "timeout_ms" (integer (pos 4000)) d
  timeout ← int_from raw_timeout
  raw_retries ← get_or "retries" (integer (pos 0)) d
  retries ← int_from raw_retries
  enabled ← get_or "enabled" (boolean true) d
  inr (record {
    action = action;
    value = value;
    field_hint = hint;
    timeout_ms = timeout;
    retries = retries;
    enabled = truth enabled;
  })

abbrev pub step_dicts : List AuthStep → Items
step_dicts [] = nil
step_dicts (s ∷ ss) = cons (step_dict s) (step_dicts ss)

unfoldable pub strategy_dict : AuthStrategy → Json
strategy_dict s =
    object (field "name" (text s.name) (field "steps" (array (step_dicts s.steps)) end))

abbrev pub steps_of : Items → Try (List AuthStep)
steps_of nil = inr []
steps_of (cons j js) = do s ← step_from_dict j; ss ← steps_of js; inr (s ∷ ss)

unfoldable pub strategy_of : Json → Try AuthStrategy
strategy_of d = do
  raw ← item "steps" d
  js ← each raw
  steps ← steps_of js
  raw_name ← get_or "name" (text (codes "default")) d
  name ← typed_text raw_name
  inr (record { steps = steps; name = name })

-- `except (json.JSONDecodeError, KeyError, ValueError, TypeError)`
abbrev pub or_default : Try AuthStrategy → Try AuthStrategy
or_default (inl key_error) = inr default_strategy
or_default (inl value_error) = inr default_strategy
or_default (inl type_error) = inr default_strategy
or_default result = result

abbrev pub read : Option Json → Try AuthStrategy
read none = inr default_strategy
read (some d) = or_default (strategy_of d)

unfoldable pub to_json : (Json → Bytes) → AuthStrategy → Bytes
to_json dumps s = dumps (strategy_dict s)

abbrev pub given : (Bytes → Option Json) → Bytes → Try AuthStrategy
given loads raw = if is_empty_text raw then inr default_strategy else read (loads raw)

unfoldable pub from_json : (Bytes → Option Json) → Option Bytes → Try AuthStrategy
from_json loads none = inr default_strategy
from_json loads (some raw) = given loads raw
