-- ===== src/Auth/Engine.antt =====
-- src/passman/core/auth/engine.py: the guard, and running the steps of a strategy.
pub mod Guard
pub mod Trace
pub mod Loop
use ash_password_manager.Common.{
  ℕ, zero, suc, ◌+◌, ◌-◌, Bool, true, false, not, ◌&&◌, ◌||◌, Option, none, some, List, [], ◌∷◌,
  ◌++◌, Bytes, same_bytes, ltb, leb, ◌==◌, if◌then◌else◌,
}
use ash_password_manager.Common.Chars.{codes, utf8}
use ash_password_manager.Common.Ints.{ℤ, pos, negsuc, int_of}
use ash_password_manager.Security.Memory.{to_bytes}
use ash_password_manager.Totp.{Hmac, TotpConfig, generate_totp}
use ash_password_manager.Vault.Models.{AccountSecrets, wipe_secrets}
use ash_password_manager.Auth.Detection.{
  Confidence, high, low, unknown, DetectedContext, TextOps, match_confidence, given,
}
use ash_password_manager.Auth.Strategy.{
  StepAction, type_username, type_password, type_totp, key_tab, key_enter, key_escape, key_combo,
  wait, focus_field, AuthStep, AuthStrategy,
}
use ash_password_manager.Auth.Steps.{
  Reply, sent, unavailable, not_sent, raised, Backend, Surroundings, Event, typed, pressed,
  combined, focused, slept, Run, fresh, ask, emit, value_or, run_step,
}
use ash_password_manager.Auth.Checks.{
  LoginOutcome, success, failed, no_backend, needs_confirmation, Detail, confidence_not_high,
  no_input_backend, cancelled_by_lock, target_changed, sequence_completed, no_further_input,
  step_failed, LoginResult, Verdict, go_on, stop, raises, failed_with, cancel_answer,
  check_cancelled, check_target, ◌then_run◌, wait_slices, waited,
}

pub data SafetyGuardMode : Type 0 where
  auto_on_high_confidence always_confirm : SafetyGuardMode

pub data GuardDecision : Type 0 where
  proceed confirm_required : GuardDecision

unfoldable pub evaluate_safety_guard : SafetyGuardMode → Confidence → GuardDecision
evaluate_safety_guard mode low = confirm_required
evaluate_safety_guard mode unknown = confirm_required
evaluate_safety_guard always_confirm high = confirm_required
evaluate_safety_guard auto_on_high_confidence high = proceed

unfoldable pub confidence_for_account : TextOps → DetectedContext → AccountSecrets → Confidence
confidence_for_account ops context secrets = match_confidence ops context secrets.app_identifiers

-- `on_step`, and the end of the run if the step has failed.
abbrev reported : AuthStep → Option Bool × Run → Verdict × Run
reported s (none, r) = (raises, r)
reported s (some true, r) = (go_on, record r { ran = r.ran ++ (s, true) ∷ [] })
reported s (some false, r) =
    (stop (failed_with (step_failed s.action)), record r { ran = r.ran ++ (s, false) ∷ [] })

abbrev waited_for : AuthStep → Verdict × Run → Verdict × Run
waited_for s (go_on, r) = (go_on, record r { ran = r.ran ++ (s, true) ∷ [] })
waited_for s (v, r) = (v, r)

perform :
    Hmac
    → Surroundings
    → Backend
    → AccountSecrets
    → Option (ℕ → Option Bool)
    → StepAction
    → AuthStep
    → Run
    → Verdict × Run
unfolding waited run_step
perform hmac env b secrets (some cancelled) wait s r =
    waited_for s (waited cancelled (int_of (value_or (codes "0") s.value)) r)
perform hmac env b secrets _ a s r = reported s (run_step hmac env b secrets a s r)

-- The body of the loop, for a step that is enabled.
pub one_step :
    Hmac
    → Surroundings
    → Backend
    → AccountSecrets
    → DetectedContext
    → AuthStep
    → Run
    → Verdict × Run
unfolding check_cancelled check_target perform
one_step hmac env b secrets context s r =
    check_cancelled env.is_cancelled r
    then_run check_target env.context_provider context
    then_run perform hmac env b secrets env.is_cancelled s.action s

unfoldable pub run_steps :
    Hmac
    → Surroundings
    → Backend
    → AccountSecrets
    → DetectedContext
    → List AuthStep
    → Run
    → Verdict × Run
unfolding one_step
run_steps hmac env b secrets context [] r = (go_on, r)
run_steps hmac env b secrets context (s ∷ steps) r =
    let skipped = run_steps hmac env b secrets context steps r in
    if not s.enabled
    then skipped
    else (one_step hmac env b secrets context s r
        then_run run_steps hmac env b secrets context steps)

-- `return SUCCESS` after the loop, and `except Exception`.
abbrev result_of : Verdict → LoginResult
result_of go_on = record { outcome = success; detail = sequence_completed }
result_of (stop result) = result
result_of raises = failed_with no_further_input

unfoldable pub run_on :
    Hmac
    → Surroundings
    → Option Backend
    → AccountSecrets
    → DetectedContext
    → List AuthStep
    → LoginResult × Run
run_on hmac env none secrets context steps =
    (record { outcome = no_backend; detail = no_input_backend }, fresh)
run_on hmac env (some b) secrets context steps =
    let (v, r) = run_steps hmac env b secrets context steps fresh in (result_of v, r)

abbrev must_ask : GuardDecision → Bool → Bool
must_ask confirm_required confirmed = not confirmed
must_ask proceed confirmed = false

-- The result, what happened, and the secrets, which `finally` wipes.
unfoldable pub run :
    TextOps
    → Hmac
    → Surroundings
    → AccountSecrets
    → AuthStrategy
    → DetectedContext
    → SafetyGuardMode
    → Bool
    → LoginResult × Run × AccountSecrets
unfolding run_on confidence_for_account evaluate_safety_guard
run ops hmac env secrets strategy context mode confirmed =
    let (result, r) =
      if must_ask (evaluate_safety_guard mode (confidence_for_account ops context secrets))
        confirmed
      then (record { outcome = needs_confirmation; detail = confidence_not_high }, fresh)
      else run_on hmac env env.backend secrets context strategy.steps in
    (result, r, wipe_secrets secrets)
