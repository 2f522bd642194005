-- ===== src/Auth/Steps.antt =====
-- src/passman/core/auth/engine.py: one step of a strategy on the input backend. What is asked of
-- the backend and of the clock is answered by functions of a counter of the questions, so an answer
-- may differ each time.
use ash_password_manager.Common.{
  ℕ, suc, Bool, true, false, Option, none, some, List, [], ◌∷◌, ◌++◌, Bytes,
}
use ash_password_manager.Common.Chars.{codes, utf8}
use ash_password_manager.Common.Ints.{ℤ, pos, negsuc, int_of}
use ash_password_manager.Security.Memory.{to_bytes}
use ash_password_manager.Totp.{Hmac, TotpConfig, generate_totp}
use ash_password_manager.Vault.Models.{AccountSecrets}
use ash_password_manager.Auth.Detection.{DetectedContext}
use ash_password_manager.Auth.Strategy.{
  StepAction, type_username, type_password, type_totp, key_tab, key_enter, key_escape, key_combo,
  wait, focus_field, AuthStep,
}

-- `InputResult` of input/backend.py, or an exception of the backend.
pub data Reply : Type 0 where
  sent unavailable not_sent raised : Reply

pub record Backend : Type 0 where
  pub type_text : ℕ → Bytes → Reply
  pub press_key : ℕ → Bytes → Reply
  pub press_combo : ℕ → Bytes → Reply
  pub focus : ℕ → Option Bytes → Reply

-- What surrounds a run. An inner `none` is an exception. `clock` is the time of the TOTP code.
pub record Surroundings : Type 0 where
  pub backend : Option Backend
  pub is_cancelled : Option (ℕ → Option Bool)
  pub context_provider : Option (ℕ → Option DetectedContext)
  pub clock : ℕ → ℕ

-- What a run asks of the backend and of the clock, in order.
pub data Event : Type 0 where
  typed pressed combined : Bytes → Event
  focused : Option Bytes → Event
  slept : ℕ → Event

-- `questions` counts the answers used. `ran` lists the steps that were run with their results, which
-- are the calls of `on_step`.
pub record Run : Type 0 where
  pub questions : ℕ
  pub events : List Event
  pub ran : List (AuthStep × Bool)

abbrev pub fresh : Run
fresh = record { questions = 0; events = []; ran = [] }

abbrev pub ask : Run → Run
ask r = record r { questions = suc r.questions }

abbrev pub emit : Event → Run → Run
emit e r = record r { questions = suc r.questions; events = r.events ++ e ∷ [] }

-- `none` is an exception.
abbrev is_sent : Reply → Option Bool
is_sent sent = some true
is_sent raised = none
is_sent _ = some false

-- Focusing fails only where the backend says so.
abbrev is_focused : Reply → Option Bool
is_focused not_sent = some false
is_focused raised = none
is_focused _ = some true

-- `step.value or "0"`, `step.value or ""`
abbrev pub value_or : Bytes → Option Bytes → Bytes
value_or other none = other
value_or other (some []) = other
value_or other (some (c ∷ cs)) = c ∷ cs

type_bytes : Backend → Option Bytes → Run → Option Bool × Run
type_bytes b none r = (none, r)
type_bytes b (some bytes) r = (is_sent (b.type_text r.questions bytes), emit (typed bytes) r)

-- time.sleep refuses a negative time.
sleep_ms : Option ℤ → Run → Option Bool × Run
sleep_ms none r = (none, r)
sleep_ms (some (negsuc n)) r = (none, r)
sleep_ms (some (pos ms)) r = (some true, emit (slept ms) r)

abbrev encoded : Option Bytes → Option Bytes
encoded none = none
encoded (some text) = utf8 text

type_code : Hmac → Surroundings → Backend → Option TotpConfig → Run → Option Bool × Run
unfolding type_bytes
type_code hmac env b none r = (some true, r)
type_code hmac env b (some config) r =
    type_bytes b (encoded (generate_totp hmac config (env.clock r.questions))) (ask r)

-- One step on the backend: the result, `none` for an exception.
unfoldable pub run_step :
    Hmac → Surroundings → Backend → AccountSecrets → StepAction → AuthStep → Run → Option Bool × Run
unfolding type_bytes type_code sleep_ms
run_step hmac env b secrets type_username s r = type_bytes b (utf8 secrets.username) r
run_step hmac env b secrets type_password s r = type_bytes b (to_bytes secrets.password) r
run_step hmac env b secrets type_totp s r = type_code hmac env b secrets.totp r
run_step hmac env b secrets key_tab s r =
    (is_sent (b.press_key r.questions (codes "tab")), emit (pressed (codes "tab")) r)
run_step hmac env b secrets key_enter s r =
    (is_sent (b.press_key r.questions (codes "enter")), emit (pressed (codes "enter")) r)
run_step hmac env b secrets key_escape s r =
    (is_sent (b.press_key r.questions (codes "escape")), emit (pressed (codes "escape")) r)
run_step hmac env b secrets key_combo s r =
    let keys = value_or [] s.value in
    (is_sent (b.press_combo r.questions keys), emit (combined keys) r)
run_step hmac env b secrets wait s r = sleep_ms (int_of (value_or (codes "0") s.value)) r
run_step hmac env b secrets focus_field s r =
    (is_focused (b.focus r.questions s.field_hint), emit (focused s.field_hint) r)
