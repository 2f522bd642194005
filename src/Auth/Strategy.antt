-- ===== src/Auth/Strategy.antt =====
-- src/passman/core/auth/strategy.py: the steps of a sign-in. Texts are lists of code points.
pub mod Json
use ash_password_manager.Common.{Bool, true, Option, none, some, List, [], ◌∷◌, Bytes}
use ash_password_manager.Common.Chars.{codes}
use ash_password_manager.Common.Ints.{ℤ, pos}

pub data StepAction : Type 0 where
  type_username type_password type_totp key_tab key_enter key_escape : StepAction
  key_combo wait focus_field : StepAction

pub record AuthStep : Type 0 where
  pub action : StepAction
  pub value : Option Bytes
  pub field_hint : Option Bytes
  pub timeout_ms : ℤ
  pub retries : ℤ
  pub enabled : Bool

pub record AuthStrategy : Type 0 where
  pub steps : List AuthStep
  pub name : Bytes

-- `AuthStep(action=…)` with the defaults of its fields.
abbrev pub step : StepAction → AuthStep
step a = record {
  action = a;
  value = none;
  field_hint = none;
  timeout_ms = pos 4000;
  retries = pos 0;
  enabled = true;
}

abbrev hinted : StepAction → Bytes → AuthStep
hinted a hint = record (step a) { field_hint = some hint }

abbrev pause : Bytes → AuthStep
pause ms = record (step wait) { value = some ms }

abbrev pub default_strategy : AuthStrategy
default_strategy = record {
  name = codes "default";
  steps =
      hinted type_username (codes "username")
      ∷ step key_tab
      ∷ hinted type_password (codes "password")
      ∷ step key_enter
      ∷ pause (codes "1500")
      ∷ hinted type_totp (codes "totp")
      ∷ step key_enter
      ∷ [];
}

abbrev pub multi_page_strategy : AuthStrategy
multi_page_strategy = record {
  name = codes "multi_page";
  steps =
      hinted type_username (codes "username")
      ∷ step key_enter
      ∷ pause (codes "1200")
      ∷ hinted type_password (codes "password")
      ∷ step key_enter
      ∷ pause (codes "1200")
      ∷ hinted type_totp (codes "totp")
      ∷ step key_enter
      ∷ [];
}

abbrev pub password_only_strategy : AuthStrategy
password_only_strategy = record {
  name = codes "password_only";
  steps = hinted type_password (codes "password") ∷ step key_enter ∷ [];
}
