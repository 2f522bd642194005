-- ===== src/Flows/Tests.antt =====
-- Runs of the login and of the wizard at concrete inputs.
use ash_password_manager.Common.{String, false, none, some, [], ◌∷◌, ◌≡◌, refl}
use ash_password_manager.Security.Memory.{SecretBytes, secret}
use ash_password_manager.Vaults.Record.{VaultRecord}
use ash_password_manager.Flows.Login.{
  Attempt, returned, other_error, LoginFlow, LoginOutcome, attempt_automatic_login, submit_password,
  identify, try_local_key, identify_call, mount_call, local_key_call, password_call, manager,
}
use ash_password_manager.Flows.Login.Interaction.{automatic, retype, IsSound, Interaction-IsSound}
use ash_password_manager.Flows.Setup.{SetupFlow, new_flow, advance_to, usb_selection, first_run}
use ash_password_manager.Flows.Setup.History.{
  start, advance, HasPast, CompletesIn, Wizard-HasPast, Wizard-Completes,
}

abbrev stick : VaultRecord
stick = record {
  vault_id = "v1";
  name = "Mine";
  filesystem_uuid = "fs";
  luks_uuid = none;
  drive_serial = none;
  drive_vendor = none;
  drive_model = none;
  container_rel_path = "ASH";
  label = "";
  created_utc = "";
  last_seen_utc = none;
  imported_from_legacy = false;
}

-- No Local Key is enrolled, and every password is wrong.
abbrev flow : LoginFlow
flow = record {
  identify_usb = some stick;
  mount = λ r. some "/mnt";
  unlock_with_local_key = λ r m. other_error;
  unlock_with_password = λ r m p. other_error;
  fallback_used = false;
  calls = [];
}

abbrev right : VaultRecord → String → SecretBytes → Attempt
right r m p = returned p

abbrev retyped : LoginOutcome × LoginFlow
retyped =
    submit_password (record (attempt_automatic_login flow).1 { unlock_with_password = right }) stick
      "/mnt" (secret (1 ∷ []))

retyped_opens :
    (retyped.0.state ≡ manager)
    × (retyped.1.calls ≡ identify_call ∷ mount_call ∷ local_key_call ∷ password_call ∷ [])
unfolding attempt_automatic_login submit_password identify try_local_key
retyped_opens = (refl, refl)

Interaction-IsSound_example : IsSound retyped.1 retyped.0
unfolding attempt_automatic_login identify try_local_key
Interaction-IsSound_example =
    Interaction-IsSound
      (retype stick "/mnt" (secret (1 ∷ [])) right (automatic flow refl refl) refl refl refl)

abbrev chosen : SetupFlow
chosen = record new_flow { state = usb_selection }

Wizard-HasPast_example : HasPast usb_selection (first_run ∷ [])
unfolding advance_to new_flow
Wizard-HasPast_example = Wizard-HasPast (advance usb_selection start refl)

Wizard-Completes_example : CompletesIn 8 chosen
unfolding advance_to new_flow
Wizard-Completes_example = Wizard-Completes (advance usb_selection start refl) (λ h. cc h)
