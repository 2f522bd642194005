-- ===== src/Vaults/Health.antt =====
-- src/passman/core/vaults/health.py: the integrity manifest and the health check. Files are named by
-- their paths in the container. Writing succeeds; reading gives the JSON value, if there is one.
pub mod Detection
use ash_password_manager.Common.{
  ℕ, Bool, true, false, not, ◌&&◌, ◌||◌, Option, none, some, List, [], ◌∷◌, ◌++◌, Bytes, same_bytes,
  String, ◌=s=◌, any, keep, is_some, if◌then◌else◌,
}
use ash_password_manager.Common.Ints.{pos}
use ash_password_manager.Common.Json.{
  Json, Fields, null, integer, text, object, end, field, get, is_object,
}

-- The files of a container that the checks look at. `slots` are the paths of the files that
-- `keyslots/*.slot` matches.
pub record Stick : Type 0 where
  pub file : String → Option Bytes
  pub slots : List String
  pub has_kdbx : Bool
  pub has_keyfile : Bool
  pub manifest : Option Json

abbrev pub tracked_files : Stick → List String
tracked_files s = "vault.json" ∷ "devices.json" ∷ s.slots

abbrev pub mem : String → List String → Bool
mem x [] = false
mem x (y ∷ ys) = y =s= x || mem x ys

-- `d.get(name)`, where None is the JSON null.
abbrev pub get_null : String → Fields → Json
get_null k fs = elim (get k fs) [ none ↦ null | some v ↦ v ]

abbrev pub key_list : Fields → List String
key_list end = []
key_list (field k v fs) = k ∷ key_list fs

-- A recorded value against a digest or None.
abbrev pub same_digest : Json → Json → Bool
same_digest (text a) (text b) = same_bytes a b
same_digest null null = true
same_digest a b = false

pub data HealthStatus : Type 0 where
  ok warning error : HealthStatus

pub record HealthCheck : Type 0 where
  pub name : String
  pub status : HealthStatus
  pub mismatches : List String

abbrev pub check : String → HealthStatus → HealthCheck
check name status = record { name = name; status = status; mismatches = [] }

abbrev pub is_error : HealthCheck → Bool
is_error c = elim c.status [ error ↦ true | _ ↦ false ]

abbrev pub is_warning : HealthCheck → Bool
is_warning c = elim c.status [ warning ↦ true | _ ↦ false ]

unfoldable pub report_status : List HealthCheck → HealthStatus
report_status checks =
    if any is_error checks then error else if any is_warning checks then warning else ok

abbrev pub present : String → Bool → HealthCheck
present name found = check name (if found then ok else error)

module _ (sha256 : Bytes → Bytes) where
  abbrev pub sha256_file : Option Bytes → Json
  sha256_file none = null
  sha256_file (some content) = text (sha256 content)

  abbrev pub digests : Stick → List String → Fields
  digests s [] = end
  digests s (name ∷ names) = field name (sha256_file (s.file name)) (digests s names)

  unfoldable pub update_integrity_manifest : Bytes → Stick → Stick
  update_integrity_manifest now s = record s {
    manifest = some (
        object (
          field "version" (integer (pos 1)) (
            field "generated_utc" (text now)
              (field "sha256" (object (digests s (tracked_files s))) end))));
  }

  -- The names in their sorted order in the report; here, those of the files first.
  abbrev pub differing : Stick → Fields → List String
  differing s recorded =
      keep
        (λ name.
          not (same_digest (get_null name recorded) (get_null name (digests s (tracked_files s)))))
        (tracked_files s ++ key_list recorded)

  abbrev pub compared : List String → HealthCheck
  compared [] = check "Integrity manifest" ok
  compared (name ∷ names) = record {
    name = "Integrity manifest";
    status = warning;
    mismatches = name ∷ names;
  }

  abbrev pub recorded_of : Option Json → Option Fields
  recorded_of (some (object fs)) = some fs
  recorded_of other = none

  abbrev pub against : Stick → Option Fields → HealthCheck
  against s none = check "Integrity manifest" warning
  against s (some recorded) = compared (differing s recorded)

  abbrev pub manifest_check : Stick → Option Json → HealthCheck
  manifest_check s (some (object fs)) = against s (recorded_of (get "sha256" fs))
  manifest_check s other = check "Integrity manifest" warning

  unfoldable pub check_vault_health : Stick → List HealthCheck
  check_vault_health s =
      present "vault.json" (is_some (s.file "vault.json"))
      ∷ present "Passwords.kdbx" s.has_kdbx
      ∷ present "Key.key" s.has_keyfile
      ∷ present "Password slot" (mem "keyslots/password.slot" s.slots)
      ∷ check "Device slots" ok
      ∷ manifest_check s s.manifest
      ∷ []
