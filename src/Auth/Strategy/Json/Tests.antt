-- ===== src/Auth/Strategy/Json/Tests.antt =====
-- The default strategy in its JSON form, at concrete codecs.
use ash_password_manager.Common.{Option, some, none, Bytes, ◌≡◌, refl, inl, inr}
use ash_password_manager.Common.Chars.{codes}
use ash_password_manager.Common.Json.{
  Json, text, real, infinite, array, nil, cons, object, field, end, overflow_error,
}
use ash_password_manager.Auth.Strategy.{default_strategy, multi_page_strategy}
use ash_password_manager.Auth.Strategy.Json.{
  strategy_dict, to_json, from_json, step_from_dict, strategy_of,
}
use ash_password_manager.Auth.Strategy.Json.Survival.{from_json-to_json}
use ash_password_manager.Auth.Strategy.Json.Errors.{Explained, parsed, from_json-Explained}

-- One text stands for the one document.
abbrev dumps : Json → Bytes
dumps d = codes "{}"

abbrev loads : Bytes → Option Json
loads raw = some (strategy_dict multi_page_strategy)

from_json-to_json_example :
    from_json loads (some (to_json dumps multi_page_strategy)) ≡ inr multi_page_strategy
unfolding to_json
from_json-to_json_example = from_json-to_json loads dumps multi_page_strategy refl (λ e. cc e)

abbrev broken : Bytes → Option Json
broken raw = none

from_json-Explained_example :
    Explained (parsed broken (some (codes "["))) (from_json broken (some (codes "[")))
from_json-Explained_example = from_json-Explained broken (some (codes "["))

-- `{"steps": [{"action": "key_tab", "timeout_ms": Infinity}]}`
abbrev endless : Json
endless = object (
    field "steps"
      (array (
        cons
          (object
            (field "action" (text (codes "key_tab")) (field "timeout_ms" (real infinite) end)))
          nil))
      end)

raises_overflow : from_json (λ raw. some endless) (some (codes "{")) ≡ inl overflow_error
unfolding from_json step_from_dict strategy_of
raises_overflow = refl

no_document : from_json (λ raw. none) (some (codes "{")) ≡ inr default_strategy
unfolding from_json
no_document = refl
