-- ===== src/Auth/Tests.antt =====
-- Detection, editing and the engine at concrete inputs.
use ash_password_manager.Common.{
  true, false, none, some, List, [], ◌∷◌, ◌≡◌, ◌≢◌, ◌↔◌, Bytes, Any, arith, replicate,
}
use ash_password_manager.Common.Chars.{codes}
use ash_password_manager.Security.Memory.{secret}
use ash_password_manager.Totp.{Hmac}
use ash_password_manager.Vault.Models.{AccountSecrets}
use ash_password_manager.Auth.Detection.{DetectedContext, TextOps, match_confidence, high}
use ash_password_manager.Auth.Detection.High.{Names, match_confidence-high_iff}
use ash_password_manager.Auth.Strategy.{AuthStep, default_strategy, password_only_strategy}
use ash_password_manager.Auth.Editor.{Account}
use ash_password_manager.Auth.Steps.{Surroundings, Backend, sent}
use ash_password_manager.Auth.Checks.{needs_confirmation, success}
use ash_password_manager.Auth.Engine.{run, auto_on_high_confidence}
use ash_password_manager.Auth.Engine.Trace.{Follows, enabled_steps, all_done}
use ash_password_manager.Auth.Engine.Guard.{MayType, IsWiped, run_is_guarded}

-- Texts without capitals, and no patterns.
abbrev plain : TextOps
plain = record { lower = λ t. t; casefold = λ t. t; search = λ p t. none }

abbrev browser : DetectedContext
browser = record { app_id = some (codes "firefox"); window_title = none; window_id = none }

match_confidence-high_iff_example :
    (match_confidence plain browser (codes "firefox" ∷ []) ≡ high) ↔ (
      (app : Bytes) × (some (codes "firefox") ≡ some app)
      × (app ≢ [])
      × Any (Names plain app) (codes "firefox" ∷ []))
match_confidence-high_iff_example = match_confidence-high_iff plain browser (codes "firefox" ∷ [])

abbrev steps : List AuthStep
steps = default_strategy.steps

abbrev full_account : Account
full_account = record { has_totp = true; has_username = true; has_password = true }

abbrev ones : Hmac
ones = record {
  digest = λ algorithm key msg. replicate 20 1;
  long = λ algorithm key msg. omega arith;
}

abbrev keyboard : Backend
keyboard = record {
  type_text = λ n t. sent;
  press_key = λ n t. sent;
  press_combo = λ n t. sent;
  focus = λ n t. sent;
}

abbrev desktop : Surroundings
desktop = record {
  backend = some keyboard;
  is_cancelled = none;
  context_provider = some (λ n. some browser);
  clock = λ n. 0;
}

abbrev account : AccountSecrets
account = record {
  entry_uuid = [];
  display_name = [];
  service_name = [];
  username = codes "ann";
  password = secret (codes "pw");
  url = [];
  notes = [];
  app_identifiers = codes "firefox" ∷ [];
  auth_strategy_json = none;
  totp = none;
  recovery_codes = [];
  category = codes "logins";
}

run_is_guarded_example :
    let (result, r, left) =
      run plain ones desktop account password_only_strategy browser auto_on_high_confidence false in
    ((result.outcome ≡ needs_confirmation)
      ↔ ¬ MayType plain account browser auto_on_high_confidence false)
    × (result.outcome ≡ needs_confirmation → (r.events ≡ []) × (r.ran ≡ []))
    × Follows (enabled_steps password_only_strategy.steps) r.ran
    × (result.outcome ≡ success → r.ran ≡ all_done (enabled_steps password_only_strategy.steps))
    × IsWiped left
run_is_guarded_example =
    run_is_guarded plain ones desktop account password_only_strategy browser auto_on_high_confidence
      false
