-- ===== src/Vaults/Registry.antt =====
-- src/passman/core/vaults/registry.py: the vaults that this machine knows. The records that `load_vaults`
-- reads are those that `save_vaults` wrote; the file is not modelled.
pub mod Refinement
use ash_password_manager.Common.{
  Bool, true, false, not, Option, none, some, List, [], ◌∷◌, ◌++◌, map, keep, first, String, ◌=s=◌,
  if◌then◌else◌,
}
use ash_password_manager.Vaults.Record.{VaultRecord}

abbrev pub is_called : String → VaultRecord → Bool
is_called id r = r.vault_id =s= id

unfoldable pub add_vault : VaultRecord → List VaultRecord → List VaultRecord
add_vault v records = keep (λ r. not (is_called v.vault_id r)) records ++ v ∷ []

unfoldable pub remove_vault : String → List VaultRecord → List VaultRecord
remove_vault id records = keep (λ r. not (is_called id r)) records

unfoldable pub get_vault : String → List VaultRecord → Option VaultRecord
get_vault id records = first (is_called id) records

abbrev pub seen_at : String → VaultRecord → VaultRecord
seen_at now r = record r { last_seen_utc = some now }

-- Saving only a list that has changed comes to the same.
unfoldable pub touch_last_seen : String → String → List VaultRecord → List VaultRecord
touch_last_seen now id records = map (λ r. if is_called id r then seen_at now r else r) records
