-- ===== src/Crypto/Binding.antt =====
-- src/passman/core/crypto/binding.py: the value that binds a slot to a device.
use ash_password_manager.Common.{ℕ, Option, none, some, List, [], ◌∷◌, ◌++◌, Bytes}
use ash_password_manager.Common.Chars.{codes}
use ash_password_manager.Common.Decimal.{str}
use ash_password_manager.Crypto.Kdf.{Hashes}

pub data BindingInput : Type 0 where
  machine_id uid username root_filesystem_uuid : BindingInput

abbrev pub default_binding_inputs : List BindingInput
default_binding_inputs = machine_id ∷ uid ∷ username ∷ []

abbrev pub input_name : BindingInput → Bytes
input_name machine_id = codes "machine_id"
input_name uid = codes "uid"
input_name username = codes "username"
input_name root_filesystem_uuid = codes "root_filesystem_uuid"

-- What the machine says of itself: the files of `_MACHINE_ID_PATHS` with the spaces stripped, `none`
-- where one cannot be read, and the user, as UTF-8.
pub record Machine : Type 0 where
  pub machine_ids : List (Option Bytes)
  pub user_id : ℕ
  pub user_name : Option Bytes

abbrev first_given : List (Option Bytes) → Option Bytes
first_given [] = none
first_given (none ∷ ids) = first_given ids
first_given (some [] ∷ ids) = first_given ids
first_given (some (c ∷ cs) ∷ ids) = some (c ∷ cs)

abbrev hidden_id : Hashes → Option Bytes → Option Bytes
hidden_id hashes none = none
hidden_id hashes (some id) = some (hashes.hmac_sha256 id (codes "ash-pm-device-binding-v1"))

unfoldable pub component : Hashes → Machine → BindingInput → Option Bytes
component hashes m machine_id = hidden_id hashes (first_given m.machine_ids)
component hashes m uid = some (str m.user_id)
component hashes m username = m.user_name
component hashes m root_filesystem_uuid = none

abbrev marked : Option Bytes → Bytes
marked none = codes "<absent>"
marked (some value) = value

abbrev hashed : Hashes → Machine → List BindingInput → Bytes
hashed hashes m [] = []
hashed hashes m (i ∷ inputs) =
    input_name i ++ b'=' ∷ marked (component hashes m i) ++ b';' ∷ hashed hashes m inputs

unfoldable pub compute_binding : Hashes → Machine → List BindingInput → Bytes
compute_binding hashes m inputs =
    hashes.sha256 (codes "ash-pm/binding/v1" ++ hashed hashes m inputs)
