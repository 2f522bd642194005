-- ===== src/Vaults/Tests.antt =====
-- A registry of two vaults, and the health of a container, at concrete inputs.
use ash_password_manager.Common.{true, false, none, some, List, [], ◌∷◌, String, ◌≡◌, refl}
use ash_password_manager.Vaults.Record.{VaultRecord}
use ash_password_manager.Vaults.Registry.{
  add_vault, remove_vault, get_vault, touch_last_seen, seen_at,
}
use ash_password_manager.Vaults.Registry.Refinement.{
  Edit, adds, removes, touches, registry, entry, get_vault-entry,
}
use ash_password_manager.Common.{Bytes, same_bytes, ◌↔◌}
use ash_password_manager.Common.Chars.{codes}
use ash_password_manager.Vaults.Health.{
  Stick, ok, warning, report_status, check_vault_health, update_integrity_manifest,
}
use ash_password_manager.Vaults.Health.Detection.{covered, HasEssentials, check_vault_health-ok_iff}

abbrev vault_of : String → String → VaultRecord
vault_of id name = record {
  vault_id = id;
  name = name;
  filesystem_uuid = "1234-ABCD";
  luks_uuid = none;
  drive_serial = none;
  drive_vendor = none;
  drive_model = none;
  container_rel_path = "vault.kdbx";
  label = "ASH";
  created_utc = "2025-01-01T00:00:00Z";
  last_seen_utc = none;
  imported_from_legacy = false;
}

abbrev some_edits : List Edit
some_edits =
    touches "noon" "a"
    ∷ adds (vault_of "a" "new")
    ∷ removes "b"
    ∷ adds (vault_of "b" "other")
    ∷ adds (vault_of "a" "old")
    ∷ []

get_vault-entry_example : get_vault "a" (registry some_edits) ≡ entry some_edits "a"
get_vault-entry_example = get_vault-entry some_edits "a"

added_again : get_vault "a" (registry some_edits) ≡ some (seen_at "noon" (vault_of "a" "new"))
unfolding add_vault remove_vault get_vault touch_last_seen
added_again = refl

removed : get_vault "b" (registry some_edits) ≡ none
unfolding add_vault remove_vault get_vault touch_last_seen
removed = refl

abbrev sound : Stick
sound = record {
  file = λ name. some (codes name);
  slots = "keyslots/password.slot" ∷ [];
  has_kdbx = true;
  has_keyfile = true;
  manifest = none;
}

abbrev same_hash : Bytes → Bytes
same_hash content = content

abbrev checked_again : Stick
checked_again = record sound { manifest = (update_integrity_manifest same_hash [] sound).manifest }

abbrev with_device_slot : Stick
with_device_slot = record checked_again { slots = "keyslots/device-1.slot" ∷ sound.slots }

check_vault_health-ok_iff_example :
    (report_status (
        check_vault_health same_hash
          (record sound { manifest = (update_integrity_manifest same_hash [] sound).manifest }))
      ≡ ok)
    ↔ (HasEssentials sound × ((name : String) → covered sound name ≡ covered sound name))
check_vault_health-ok_iff_example =
    check_vault_health-ok_iff same_hash [] sound sound (λ name a b h k e. e)

unchanged_is_ok : report_status (check_vault_health same_hash checked_again) ≡ ok
unfolding report_status check_vault_health update_integrity_manifest same_bytes
unchanged_is_ok = refl

new_slot_is_found : report_status (check_vault_health same_hash with_device_slot) ≡ warning
unfolding report_status check_vault_health update_integrity_manifest same_bytes
new_slot_is_found = refl
