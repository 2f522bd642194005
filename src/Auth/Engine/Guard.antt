-- ===== src/Auth/Engine/Guard.antt =====
-- src/passman/core/auth/engine.py: when a run asks for confirmation, and what every run leaves.
use ash_password_manager.Common.{
  ◌∙◌, Bool, true, false, none, List, [], ◌∷◌, ◌≡◌, refl, sym, ◌⊎◌, ◌↔◌, inl, inr, arith,
  Bool-cases,
}
use mathlib.Core.Bool.{false≢true}
use ash_password_manager.Security.Memory.{to_bytes, wipe}
use ash_password_manager.Totp.{Hmac}
use ash_password_manager.Vault.Models.{AccountSecrets, wipe_secrets}
use ash_password_manager.Auth.Detection.{
  Confidence, high, low, unknown, DetectedContext, TextOps, match_confidence,
}
use ash_password_manager.Auth.Strategy.{AuthStep, AuthStrategy}
use ash_password_manager.Auth.Steps.{Surroundings}
use ash_password_manager.Auth.Checks.{needs_confirmation, success}
use ash_password_manager.Auth.Engine.{
  confidence_for_account, SafetyGuardMode, auto_on_high_confidence, always_confirm, run, must_ask,
  evaluate_safety_guard,
}
use ash_password_manager.Auth.Engine.Trace.{Follows, enabled_steps, all_done}
use ash_password_manager.Auth.Engine.Loop.{run_on-Accounts}

-- The user has confirmed, or the mode lets a run go ahead and the window is the account's.
abbrev pub MayType : TextOps → AccountSecrets → DetectedContext → SafetyGuardMode → Bool → Type 0
MayType ops secrets context mode confirmed =
    (confirmed ≡ true)
    ⊎ (mode ≡ auto_on_high_confidence)
      × (match_confidence ops context secrets.app_identifiers ≡ high)

-- The guard and the flag decide whether the run asks.
guard_iff :
    (mode : SafetyGuardMode) (c : Confidence) (confirmed : Bool)
    → must_ask (evaluate_safety_guard mode c) confirmed ≡ false
      ↔ (confirmed ≡ true) ⊎ (mode ≡ auto_on_high_confidence) × (c ≡ high)
unfolding evaluate_safety_guard
guard_iff mode low confirmed = ground arith
guard_iff mode unknown confirmed = ground arith
guard_iff always_confirm high confirmed = ground arith
guard_iff auto_on_high_confidence high confirmed = (λ h. inr (refl, refl), λ h. refl)

-- No password, user name, TOTP secret or recovery code is left.
abbrev pub IsWiped : AccountSecrets → Type 0
IsWiped secrets =
    (to_bytes secrets.password ≡ none)
    × (secrets.username ≡ [])
    × (secrets.totp ≡ none)
    × (secrets.recovery_codes ≡ [])

Follows-nil : (steps : List AuthStep) → Follows steps []
Follows-nil [] = tt
Follows-nil (s ∷ steps) = tt

wipe_secrets-IsWiped : (secrets : AccountSecrets) → IsWiped (wipe_secrets secrets)
unfolding wipe_secrets wipe to_bytes
wipe_secrets-IsWiped secrets = (ground arith, refl, refl, refl)

-- Whatever the backend, the clock and the checks answer: a run asks for confirmation exactly if the
-- user has not confirmed and the mode or the window does not let it go ahead; then it has sent nothing
-- and run no step. Any other run goes through the enabled steps in their order, each of them
-- succeeding but for the last one that was run, and it reports success only if all of them were run
-- and succeeded. On every path the secrets are wiped.
pub run_is_guarded :
    (ops : TextOps) (hmac : Hmac) (env : Surroundings) (secrets : AccountSecrets)
    (strategy : AuthStrategy) (context : DetectedContext) (mode : SafetyGuardMode)
    (confirmed : Bool)
    → let (result, r, left) = run ops hmac env secrets strategy context mode confirmed in
      ((result.outcome ≡ needs_confirmation) ↔ ¬ MayType ops secrets context mode confirmed)
      × (result.outcome ≡ needs_confirmation → (r.events ≡ []) × (r.ran ≡ []))
      × Follows (enabled_steps strategy.steps) r.ran
      × (result.outcome ≡ success → r.ran ≡ all_done (enabled_steps strategy.steps))
      × IsWiped left
unfolding run confidence_for_account
run_is_guarded ops hmac env secrets strategy context mode confirmed =
    elim (Bool-cases (must_ask (evaluate_safety_guard mode confidence) confirmed)) [
      | inl asks ↦ rw asks (
        (λ h may. absurd (false≢true (sym (guard.1 may) ∙ asks)), λ h. refl),
        λ h. (refl, refl),
        Follows-nil (enabled_steps strategy.steps),
        λ h. absurd (cc h),
        wipe_secrets-IsWiped secrets,
      )
      | inr runs ↦
          let (follows, all, never) =
            run_on-Accounts hmac env env.backend secrets context strategy.steps in
          rw runs (
            (λ h. absurd (never h), λ h. absurd (h (guard.0 runs))),
            λ h. absurd (never h),
            follows,
            all,
            wipe_secrets-IsWiped secrets,
          )
    ]
  where
    confidence : Confidence
    confidence = match_confidence ops context secrets.app_identifiers

    guard :
        must_ask (evaluate_safety_guard mode confidence) confirmed ≡ false
        ↔ MayType ops secrets context mode confirmed
    guard = guard_iff mode confidence confirmed
