-- ===== src/Flows/Login.antt =====
-- src/passman/core/flows/login_machine.py: one login attempt. The injected callables are fields of
-- the flow, as in the source; `calls` lists the ones that have been invoked, in order.
pub mod Interaction
use ash_password_manager.Common.{String, Bool, true, false, Option, none, some, List, [], ◌∷◌, ◌++◌}
use ash_password_manager.Security.Memory.{SecretBytes}
use ash_password_manager.Vaults.Record.{VaultRecord}

pub data LoginState : Type 0 where
  usb_detected identify_usb check_local_key ask_password manager failed : LoginState

pub data LoginFailureReason : Type 0 where
  no_matching_usb mount_failed incorrect_password vault_open_failed vault_unreadable :
      LoginFailureReason

pub record LoginOutcome : Type 0 where
  pub state : LoginState
  pub vault_record : Option VaultRecord
  pub mountpoint : Option String
  pub used_local_key : Bool
  pub fallback_used : Bool
  pub failure : Option LoginFailureReason
  pub detail : String
  pub vms : Option SecretBytes

-- What a call of an unlock function does: it returns, or it raises. The flow tells apart
-- `VaultUnreadableError` and any other exception.
pub data Attempt : Type 0 where
  returned : SecretBytes → Attempt
  unreadable_error other_error : Attempt

pub data Callable : Type 0 where
  identify_call mount_call local_key_call password_call : Callable

pub record LoginFlow : Type 0 where
  pub identify_usb : Option VaultRecord
  pub mount : VaultRecord → Option String
  pub unlock_with_local_key : VaultRecord → String → Attempt
  pub unlock_with_password : VaultRecord → String → SecretBytes → Attempt
  pub fallback_used : Bool
  pub calls : List Callable

-- `LoginOutcome(state=...)` with the defaults of its fields.
abbrev pub outcome : LoginState → LoginOutcome
outcome s = record {
  state = s;
  vault_record = none;
  mountpoint = none;
  used_local_key = false;
  fallback_used = false;
  failure = none;
  detail = "";
  vms = none;
}

abbrev invoke : Callable → LoginFlow → LoginFlow
invoke c f = record f { calls = f.calls ++ c ∷ [] }

mounted : VaultRecord → Option String → LoginFlow → LoginOutcome × LoginFlow
mounted r none f =
    (record (outcome failed) { vault_record = some r; failure = some mount_failed }, f)
mounted r (some m) f =
    (record (outcome check_local_key) { vault_record = some r; mountpoint = some m }, f)

usb_identified : Option VaultRecord → LoginFlow → LoginOutcome × LoginFlow
unfolding mounted
usb_identified none f = (record (outcome failed) { failure = some no_matching_usb }, f)
usb_identified (some r) f = mounted r (f.mount r) (invoke mount_call f)

unfoldable pub identify : LoginFlow → LoginOutcome × LoginFlow
unfolding usb_identified
identify f = usb_identified f.identify_usb (invoke identify_call f)

local_key_result : VaultRecord → String → Attempt → LoginFlow → LoginOutcome × LoginFlow
local_key_result r m (returned secret) f = (
  record (outcome manager) {
    vault_record = some r;
    mountpoint = some m;
    used_local_key = true;
    vms = some secret;
  },
  f,
)
local_key_result r m _ f = (
  record (outcome ask_password) {
    vault_record = some r;
    mountpoint = some m;
    fallback_used = true;
  },
  record f { fallback_used = true },
)

unfoldable pub try_local_key : LoginFlow → VaultRecord → String → LoginOutcome × LoginFlow
unfolding local_key_result
try_local_key f r m = local_key_result r m (f.unlock_with_local_key r m) (invoke local_key_call f)

abbrev password_failed : LoginFlow → VaultRecord → String → LoginFailureReason → LoginOutcome
password_failed f r m why = record (outcome ask_password) {
  vault_record = some r;
  mountpoint = some m;
  fallback_used = f.fallback_used;
  failure = some why;
}

password_result : VaultRecord → String → Attempt → LoginFlow → LoginOutcome × LoginFlow
password_result r m unreadable_error f = (password_failed f r m vault_unreadable, f)
password_result r m other_error f = (password_failed f r m incorrect_password, f)
password_result r m (returned secret) f = (
  record (outcome manager) {
    vault_record = some r;
    mountpoint = some m;
    fallback_used = f.fallback_used;
    vms = some secret;
  },
  f,
)

unfoldable pub submit_password :
    LoginFlow → VaultRecord → String → SecretBytes → LoginOutcome × LoginFlow
unfolding password_result
submit_password f r m password =
    password_result r m (f.unlock_with_password r m password) (invoke password_call f)

-- `if outcome.state != CHECK_LOCAL_KEY: return outcome`; `identify` sets both fields in that state.
proceed :
    LoginState
    → Option VaultRecord
    → Option String
    → LoginOutcome × LoginFlow
    → LoginOutcome × LoginFlow
proceed check_local_key (some r) (some m) (out, f) = try_local_key f r m
proceed _ _ _ result = result

unfoldable pub attempt_automatic_login : LoginFlow → LoginOutcome × LoginFlow
unfolding proceed identify try_local_key
attempt_automatic_login f =
    let (out, f') = identify f in proceed out.state out.vault_record out.mountpoint (out, f')
