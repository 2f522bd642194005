-- ===== src/Auth/Strategy/Json/Survival.antt =====
-- src/passman/core/auth/strategy.py: a strategy survives its JSON form.
use ash_password_manager.Common.{
  Bool, Option, none, some, List, [], ◌∷◌, Bytes, same_bytes, ◌≡◌, ◌≢◌, refl, inr,
}
use ash_password_manager.Common.Json.{
  Json, text, boolean, typed_optional, optional_text, truth, is_empty_text-named,
}
use ash_password_manager.Auth.Strategy.{
  StepAction, type_username, type_password, type_totp, key_tab, key_enter, key_escape, key_combo,
  wait, focus_field, AuthStep, AuthStrategy,
}
use ash_password_manager.Auth.Strategy.Json.{
  action_name, action_of, step_dict, step_from_dict, step_dicts, steps_of, strategy_dict,
  strategy_of, to_json, from_json,
}

action_of-action_name : (a : StepAction) → action_of (text (action_name a)) ≡ inr a
unfolding same_bytes
action_of-action_name type_username = refl
action_of-action_name type_password = refl
action_of-action_name type_totp = refl
action_of-action_name key_tab = refl
action_of-action_name key_enter = refl
action_of-action_name key_escape = refl
action_of-action_name key_combo = refl
action_of-action_name wait = refl
action_of-action_name focus_field = refl

typed_optional-optional_text : (o : Option Bytes) → typed_optional (optional_text o) ≡ inr o
typed_optional-optional_text none = refl
typed_optional-optional_text (some s) = refl

truth-boolean : (b : Bool) → truth (boolean b) ≡ b
truth-boolean b = refl

step_from_dict-step_dict : (s : AuthStep) → step_from_dict (step_dict s) ≡ inr s
unfolding step_from_dict step_dict
step_from_dict-step_dict s =
    rw
      (
        action_of-action_name s.action,
        typed_optional-optional_text s.value,
        typed_optional-optional_text s.field_hint,
      )
      refl

steps_of-step_dicts : (ss : List AuthStep) → steps_of (step_dicts ss) ≡ inr ss
steps_of-step_dicts [] = refl
steps_of-step_dicts (s ∷ ss) = rw (step_from_dict-step_dict s, steps_of-step_dicts ss) refl

strategy_of-strategy_dict : (s : AuthStrategy) → strategy_of (strategy_dict s) ≡ inr s
unfolding strategy_of strategy_dict
strategy_of-strategy_dict s = rw (steps_of-step_dicts s.steps) refl

-- A strategy that is written with json.dumps is read back unchanged, where json.loads gives the document that
-- json.dumps wrote and the text of a document is not empty.
pub from_json-to_json :
    (loads : Bytes → Option Json) (dumps : Json → Bytes) (s : AuthStrategy)
    → loads (to_json dumps s) ≡ some (strategy_dict s)
    → to_json dumps s ≢ []
    → from_json loads (some (to_json dumps s)) ≡ inr s
unfolding from_json
from_json-to_json loads dumps s reads filled =
    rw (is_empty_text-named (to_json dumps s) filled, reads, strategy_of-strategy_dict s) refl
