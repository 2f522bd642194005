-- ===== src/Backup/Tests.antt =====
-- A backup of a small container, at concrete inputs. The cipher copies its text, the hashes are constant, and
-- a document has one byte as its text.
use ash_password_manager.Common.{
  true, false, Option, none, some, [], ◌∷◌, Bytes, String, ◌=s=◌, ◌==◌, same_bytes, replicate,
  if◌then◌else◌, ◌≡◌, refl, inl, inr, arith,
}
use ash_password_manager.Common.Base64.{b64encode, b64decode}
use ash_password_manager.Common.Chars.{codes}
use ash_password_manager.Common.Json.{Json, text, array, nil, object, field, end}
use ash_password_manager.Security.Memory.{SecretBytes, truthy, to_bytes}
use ash_password_manager.Crypto.Aead.{Gcm, SealedBox, seal}
use ash_password_manager.Crypto.Kdf.{Hashes, Argon2Params, derive_key_argon2id}
use ash_password_manager.Crypto.Kdf.Dict.{IsBounded, params_from_dict}
use ash_password_manager.Crypto.Keyslots.{KeySlot, password_kind}
use ash_password_manager.Crypto.Keyslots.Dict.{to_dict, from_dict, with_password, bare_slot}
use ash_password_manager.Backup.{
  find, Files, Formats, members_of, max_archive_bytes, corrupt, backup_error,
}
use ash_password_manager.Backup.Payload.{bundled_names, among, pack, validate_payload}
use ash_password_manager.Backup.Envelope.{
  Stamp, header_dict, create_backup, verify_backup, restore_backup, decrypt_archive,
}
use ash_password_manager.Backup.Recovery.{restore_backup-create_backup}

abbrev copying : Gcm
copying = record {
  encrypt = λ key nonce aad text. (text, replicate 16 0);
  decrypt = λ key nonce aad ciphertext tag. some ciphertext;
  inverse = λ key nonce aad text. refl;
  tag_length = λ key nonce aad text. refl;
}

abbrev constant : Hashes
constant = record {
  argon2id = λ secret salt params. replicate 32 7;
  hmac_sha256 = λ key msg. replicate 32 8;
  sha256 = λ msg. replicate 32 9;
  argon2id_length = λ secret salt params. refl;
  hmac_length = λ key msg. refl;
}

abbrev cheap : Argon2Params
cheap = record { time_cost = 1; memory_cost_kib = 64; parallelism = 1 }

abbrev slot : KeySlot
slot =
    with_password
      (bare_slot password_kind (codes "password") (codes "v1") (replicate 16 2)
        (record { nonce = replicate 12 1; ciphertext = replicate 32 3; tag = replicate 16 0 }) []
        [])
      cheap

abbrev stamp : Stamp
stamp = record { salt = replicate 16 5; nonce = replicate 12 6; now = codes "2026" }

abbrev whole : SealedBox
whole = record { nonce = replicate 12 6; ciphertext = 9 ∷ []; tag = replicate 16 0 }

abbrev file : String → Option Bytes
file name =
    if name =s= "vault.json"
    then some (1 ∷ [])
    else if name =s= "devices.json"
    then some (2 ∷ [])
    else if name =s= "keyslots/password.slot"
    then some (3 ∷ [])
    else some (0 ∷ [])

abbrev packed_files : Files
packed_files =
    ("Passwords.kdbx", 0 ∷ [])
    ∷ ("Key.key", 0 ∷ [])
    ∷ ("vault.json", 1 ∷ [])
    ∷ ("devices.json", 2 ∷ [])
    ∷ ("keyslots/password.slot", 3 ∷ [])
    ∷ []

abbrev loads : Bytes → Option Json
loads [] = none
loads (c ∷ cs) =
    if c == 1
    then some (object (field "vault_id" (text (codes "v1")) end))
    else if c == 2
    then some (array nil)
    else if c == 3
    then some (to_dict slot)
    else if c == 4
    then some (header_dict stamp cheap whole)
    else none

abbrev tools : Formats
tools = record {
  tar = λ files. 9 ∷ [];
  untar = λ payload. some (members_of packed_files);
  loads = loads;
  dumps = λ d. 4 ∷ [];
  repr = λ d. [];
  gcm = copying;
  hashes = constant;
}

abbrev passphrase : SecretBytes
passphrase = record { buf = 112 ∷ []; wiped = false }

abbrev archive : Bytes
archive = 0 ∷ 0 ∷ 0 ∷ 1 ∷ 4 ∷ 9 ∷ []

cheap-IsBounded : IsBounded cheap
cheap-IsBounded = record {
  time_bounds = (omega arith, omega arith);
  lanes_bounds = (omega arith, omega arith);
  memory_bounds = (omega arith, omega arith);
  work_bound = omega arith;
}

archive_is_made : create_backup tools false file passphrase stamp cheap ≡ inr archive
unfolding create_backup pack validate_payload truthy to_bytes derive_key_argon2id seal from_dict
    to_dict params_from_dict max_archive_bytes same_bytes b64encode b64decode
archive_is_made = refl

restore_backup-create_backup_example :
    (verify_backup tools archive passphrase ≡ inr true)
    × (restore_backup tools true archive passphrase none true ≡ inr packed_files)
    × ((k : String) → among k bundled_names ≡ true → find k packed_files ≡ file k)
unfolding derive_key_argon2id to_bytes seal max_archive_bytes
restore_backup-create_backup_example =
    restore_backup-create_backup tools file passphrase stamp cheap packed_files (replicate 32 7)
      whole refl refl refl refl refl (omega arith, omega arith) refl (omega arith)
      (omega arith, omega arith) refl (omega arith) (omega arith) (omega arith) cheap-IsBounded
      archive archive_is_made

short_file : verify_backup tools (0 ∷ 0 ∷ []) passphrase ≡ inl corrupt
unfolding verify_backup decrypt_archive
short_file = refl

no_restore_over_files : restore_backup tools false archive passphrase none true ≡ inl backup_error
unfolding restore_backup
no_restore_over_files = refl
