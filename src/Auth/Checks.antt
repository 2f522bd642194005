-- ===== src/Auth/Checks.antt =====
-- src/passman/core/auth/engine.py: what is checked before each step, and waiting. A wait is cut
-- into slices of a tenth of a second, in whole milliseconds.
use ash_password_manager.Common.{
  ℕ, zero, suc, ◌-◌, Bool, true, false, not, ◌||◌, Option, none, some, [], ◌∷◌, Bytes, same_bytes,
  ltb, ◌==◌, if◌then◌else◌,
}
use ash_password_manager.Common.Ints.{ℤ, pos, negsuc}
use ash_password_manager.Auth.Detection.{DetectedContext, given}
use ash_password_manager.Auth.Strategy.{StepAction}
use ash_password_manager.Auth.Steps.{slept, Run, ask, emit}

pub data LoginOutcome : Type 0 where
  success failed no_backend needs_confirmation : LoginOutcome

-- The texts of `LoginResult.detail`.
pub data Detail : Type 0 where
  confidence_not_high no_input_backend cancelled_by_lock target_changed sequence_completed
        no_further_input :
      Detail
  step_failed : StepAction → Detail

pub record LoginResult : Type 0 where
  pub outcome : LoginOutcome
  pub detail : Detail

-- How a check or a step goes on.
pub data Verdict : Type 0 where
  go_on : Verdict
  stop : LoginResult → Verdict
  raises : Verdict

abbrev pub failed_with : Detail → LoginResult
failed_with d = record { outcome = failed; detail = d }

unfoldable pub cancel_answer : Option Bool → Verdict
cancel_answer none = raises
cancel_answer (some true) = stop (failed_with cancelled_by_lock)
cancel_answer (some false) = go_on

unfoldable pub check_cancelled : Option (ℕ → Option Bool) → Run → Verdict × Run
unfolding cancel_answer
check_cancelled none r = (go_on, r)
check_cancelled (some cancelled) r = (cancel_answer (cancelled r.questions), ask r)

-- `current.app_id != context.app_id` where the context has one.
abbrev pub differs : Option Bytes → Option Bytes → Bool
differs none current = false
differs (some []) current = false
differs (some (c ∷ cs)) none = true
differs (some (c ∷ cs)) (some t) = not (same_bytes t (c ∷ cs))

target_answer : DetectedContext → Option DetectedContext → Verdict
target_answer context none = raises
target_answer context (some current) =
    if differs context.app_id current.app_id || differs context.window_id current.window_id
    then stop (failed_with target_changed)
    else go_on

unfoldable pub check_target :
    Option (ℕ → Option DetectedContext) → DetectedContext → Run → Verdict × Run
unfolding target_answer
check_target none context r = (go_on, r)
check_target (some provider) context r =
    if given context.app_id || given context.window_id
    then (target_answer context (provider r.questions), ask r)
    else (go_on, r)

infixl 5 ◌then_run◌
abbrev pub ◌then_run◌ : Verdict × Run → (Run → Verdict × Run) → Verdict × Run
(go_on, r) then_run k = k r
(v, r) then_run k = (v, r)

-- `while remaining > 0`, with the cancellation asked before each slice. `remaining` rounds are enough.
unfoldable pub wait_slices : (ℕ → Option Bool) → ℕ → ℕ → Run → Verdict × Run
unfolding cancel_answer
wait_slices cancelled zero remaining r = (go_on, r)
wait_slices cancelled (suc fuel) remaining r =
    let slice = if ltb remaining 100 then remaining else 100 in
    if remaining == 0
    then (go_on, r)
    else ((cancel_answer (cancelled r.questions), ask r) then_run λ asked.
        wait_slices cancelled fuel (remaining - slice) (emit (slept slice) asked))

-- `max(0, int(step.value or "0"))`
unfoldable pub waited : (ℕ → Option Bool) → Option ℤ → Run → Verdict × Run
unfolding wait_slices
waited cancelled none r = (raises, r)
waited cancelled (some (negsuc n)) r = (go_on, r)
waited cancelled (some (pos ms)) r = wait_slices cancelled ms ms r
