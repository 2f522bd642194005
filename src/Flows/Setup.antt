-- ===== src/Flows/Setup.antt =====
-- src/passman/core/flows/setup_machine.py: the forward-only wizard of the first set-up.
pub mod History
use ash_password_manager.Common.{
  String, Bool, true, false, Option, none, some, List, [], ◌∷◌, any, not, if◌then◌else◌,
}

pub data SetupState : Type 0 where
  first_run usb_selection adopt_or_create password_creation local_key_optional : SetupState
  vault_creation device_registration hotkey_setup usb_removal_configuration : SetupState
  setup_complete failed : SetupState

-- Equality of the enum's members, by their place.
abbrev pub same_state : SetupState → SetupState → Bool
same_state first_run first_run = true
same_state usb_selection usb_selection = true
same_state adopt_or_create adopt_or_create = true
same_state password_creation password_creation = true
same_state local_key_optional local_key_optional = true
same_state vault_creation vault_creation = true
same_state device_registration device_registration = true
same_state hotkey_setup hotkey_setup = true
same_state usb_removal_configuration usb_removal_configuration = true
same_state setup_complete setup_complete = true
same_state failed failed = true
same_state _ _ = false

unfoldable pub transitions : SetupState → List SetupState
transitions first_run = usb_selection ∷ []
transitions usb_selection = adopt_or_create ∷ password_creation ∷ []
transitions adopt_or_create = password_creation ∷ []
transitions password_creation = local_key_optional ∷ []
transitions local_key_optional = vault_creation ∷ []
transitions vault_creation = device_registration ∷ []
transitions device_registration = hotkey_setup ∷ []
transitions hotkey_setup = usb_removal_configuration ∷ []
transitions usb_removal_configuration = setup_complete ∷ []
transitions setup_complete = []
transitions failed = []

abbrev pub abortable_states : List SetupState
abortable_states =
    first_run ∷ usb_selection ∷ adopt_or_create ∷ password_creation ∷ local_key_optional ∷ []

pub record SetupDraft : Type 0 where
  pub mountpoint : Option String
  pub container_rel_path : String
  pub vault_name : String
  pub is_adoption : Bool
  pub existing_keyfile_rel_path : Option String
  pub enroll_local_key : Bool
  pub device_label : Option String
  pub hotkey_accelerator : Option String
  pub hotkey_backend : Option String
  pub usb_removal_action : String
  pub agent_autostart_enabled : Bool

pub record SetupFlow : Type 0 where
  pub state : SetupState
  pub draft : SetupDraft
  pub failure_reason : Option String

unfoldable pub new_draft : SetupDraft
new_draft = record {
  mountpoint = none;
  container_rel_path = "ASH";
  vault_name = "My Passwords";
  is_adoption = false;
  existing_keyfile_rel_path = none;
  enroll_local_key = true;
  device_label = none;
  hotkey_accelerator = none;
  hotkey_backend = none;
  usb_removal_action = "lock_immediately";
  agent_autostart_enabled = true;
}

unfoldable pub new_flow : SetupFlow
new_flow = record { state = first_run; draft = new_draft; failure_reason = none }

abbrev is_failed : SetupState → Bool
is_failed failed = true
is_failed _ = false

unfoldable pub can_advance_to : SetupFlow → SetupState → Bool
unfolding transitions
can_advance_to f target =
    if is_failed target
    then any (same_state f.state) abortable_states
    else any (same_state target) (transitions f.state)

-- `none` is InvalidTransitionError, which leaves the flow as it was.
unfoldable pub advance_to : SetupFlow → SetupState → Option SetupFlow
unfolding can_advance_to
advance_to f target =
    if not (can_advance_to f target) then none else some (record f { state = target })

unfoldable pub fail : SetupFlow → String → Option SetupFlow
fail f reason =
    if not (any (same_state f.state) abortable_states)
    then none
    else some (record f { state = failed; failure_reason = some reason })

unfoldable pub is_complete : SetupFlow → Bool
is_complete f = same_state f.state setup_complete
