-- ===== src/Devices/Tests.antt =====
-- A vault with one password slot, at concrete inputs. The cipher of the tests copies its text, and
-- the hashes are constant.
use ash_password_manager.Common.{
  ℕ, true, false, Option, none, some, [], ◌∷◌, Bytes, same_bytes, length, ◌≡◌, ◌≢◌, refl, inr,
  arith, replicate, if◌then◌else◌,
}
use ash_password_manager.Common.Chars.{codes}
use ash_password_manager.Security.Memory.{SecretBytes, secret, to_bytes}
use ash_password_manager.Crypto.Aead.{Gcm, open_box}
use ash_password_manager.Crypto.Kdf.{Hashes, expand, derive_key_argon2id, hkdf_sha256, first_bytes}
use ash_password_manager.Crypto.Kdf.Expand.{hkdf_sha256_lem, blocks}
use ash_password_manager.Crypto.Binding.{
  Machine, compute_binding, component, default_binding_inputs,
}
use ash_password_manager.Crypto.Keyslots.{
  KeySlot, Fresh, device_kind, create_password_slot, create_device_slot, unwrap_device_slot,
  password_kind, password_slot_id, slot_id_for_device, unwrap_password_slot,
}
use ash_password_manager.Crypto.Keyslots.Sealing.{password_opens, device_opens}
use ash_password_manager.Common.Decimal.{str}
use ash_password_manager.Devices.Container.{Container, holds, missing, is_slot_id, read_slot, put}
use ash_password_manager.Devices.LocalKey.{
  Local, has_local_key, load_local_key, resolve_pepper, tier_of,
}
use ash_password_manager.Devices.Registry.{
  Enrolment, unlock_with_password, change_master_password, local_key_secret, revoke_device,
  register_device, reset_master_password_with_local_key,
}
use ash_password_manager.Devices.Passwords.{SameBesides, change_master_password_lem}
use ash_password_manager.Devices.Reset.{reset_master_password_lem}
use ash_password_manager.Devices.Revocation.{Revokes, revoke_device_lem}
use ash_password_manager.Devices.Enrolment.{register_device_lem}

abbrev copying : Gcm
copying = record {
  encrypt = λ key nonce aad text. (text, replicate 16 0);
  decrypt = λ key nonce aad ciphertext tag. some ciphertext;
  inverse = λ key nonce aad text. refl;
  tag_length = λ key nonce aad text. refl;
}

abbrev constant : Hashes
constant = record {
  argon2id = λ secret salt params. replicate 32 1;
  hmac_sha256 = λ key msg. replicate 32 2;
  sha256 = λ msg. msg;
  argon2id_length = λ secret salt params. refl;
  hmac_length = λ key msg. refl;
}

hkdf_sha256_lem_example :
    (m : ℕ) × (hkdf_sha256 constant (1 ∷ []) (2 ∷ []) (3 ∷ []) 40
      ≡ some (first_bytes 40 (blocks constant (replicate 32 2) (3 ∷ []) m)))
    × (length (first_bytes 40 (blocks constant (replicate 32 2) (3 ∷ []) m)) ≡ 40)
hkdf_sha256_lem_example =
    hkdf_sha256_lem constant (1 ∷ []) (2 ∷ []) (3 ∷ []) 40 (omega arith) (omega arith)

abbrev vms : SecretBytes
vms = record { buf = 7 ∷ 8 ∷ []; wiped = false }

abbrev old_word : SecretBytes
old_word = record { buf = codes "old"; wiped = false }

abbrev new_word : SecretBytes
new_word = record { buf = codes "new"; wiped = false }

abbrev slot : KeySlot
slot = record {
  slot_id = password_slot_id;
  kind = password_kind;
  vault_id = codes "v";
  salt = replicate 16 5;
  box = record { nonce = replicate 12 0; ciphertext = 7 ∷ 8 ∷ []; tag = replicate 16 0 };
  created_utc = codes "2026";
  label = codes "Master password";
  argon2_params = none;
  device_id = none;
  binding_inputs = [];
}

abbrev vault : Container
vault = record {
  slots = λ id. if same_bytes id password_slot_id then holds slot else missing;
  devices = [];
}

abbrev fresh : Fresh
fresh = record { salt = replicate 16 9; nonce = replicate 12 9; now = codes "2027" }

opens : unlock_with_password copying constant vault old_word ≡ inr vms
unfolding unlock_with_password read_slot is_slot_id same_bytes unwrap_password_slot
    derive_key_argon2id open_box secret to_bytes
opens = refl

change_master_password_lem_example :
    (c' : Container) × (change_master_password copying constant fresh old_word new_word none vault
      ≡ inr c')
    × (unlock_with_password copying constant c' new_word ≡ inr vms)
    × SameBesides vault c'
    × ((machine : Machine) (loaded : Option SecretBytes) (l : Local)
        → local_key_secret copying constant machine loaded c' l
          ≡ local_key_secret copying constant machine loaded vault l)
unfolding same_bytes
change_master_password_lem_example =
    change_master_password_lem copying constant fresh vault slot old_word new_word vms none
      (refl, refl) refl (refl, refl) opens

abbrev laptop : Machine
laptop = record {
  machine_ids = some (codes "abc") ∷ [];
  user_id = 1000;
  user_name = some (codes "ann");
}

abbrev enrolment : Enrolment
enrolment = record {
  device_id = codes "d1";
  key = replicate 32 3;
  pepper = replicate 32 4;
  stored = true;
  fresh = fresh;
}

abbrev no_key : Local
no_key = record { key_file = none; identity = none }

register_device_lem_example :
    let (result, l') =
      register_device copying constant laptop enrolment
        (codes "v")
        vms
        (codes "laptop")
        (codes "Arch")
        vault
        no_key in
    (c' : Container) × (result ≡ inr c')
    × ((loaded : Option SecretBytes)
        → (true ≡ true → loaded ≡ some (secret (replicate 32 4)))
        → local_key_secret copying constant laptop loaded c' l' ≡ inr (secret (7 ∷ 8 ∷ [])))
    × ((id : Bytes) → id ≢ slot_id_for_device (codes "d1") → c'.slots id ≡ vault.slots id)
unfolding is_slot_id same_bytes
register_device_lem_example =
    register_device_lem copying constant laptop enrolment (codes "v") (codes "laptop")
      (codes "Arch") vms vault no_key ((refl, refl), refl, refl) refl refl

revoke_device_lem_example :
    Revokes copying constant
      (codes "d1")
      vault
      (record { slots = put (slot_id_for_device (codes "d1")) missing vault.slots; devices = [] })
unfolding revoke_device is_slot_id same_bytes
revoke_device_lem_example =
    revoke_device_lem copying constant (codes "2028") (codes "d1") vault
      (record { slots = put (slot_id_for_device (codes "d1")) missing vault.slots; devices = [] })
      refl

abbrev device_slot : KeySlot
device_slot = record slot {
  slot_id = slot_id_for_device (codes "d1");
  kind = device_kind;
  argon2_params = none;
  device_id = some (codes "d1");
}

abbrev shared : Container
shared = record vault {
  slots = put (slot_id_for_device (codes "d1")) (holds device_slot) vault.slots;
}

abbrev key_only : Local
key_only = record {
  key_file = some (replicate 32 3);
  identity = some (record {
    device_id = codes "d1";
    vault_id = codes "v";
    label = [];
    created_utc = [];
    tier = codes "file_only";
  });
}

key_opens : local_key_secret copying constant laptop none shared key_only ≡ inr vms
unfolding local_key_secret has_local_key load_local_key read_slot is_slot_id same_bytes
    unwrap_device_slot hkdf_sha256 expand compute_binding component str open_box secret to_bytes
    resolve_pepper tier_of
key_opens = refl

reset_master_password_lem_example :
    (c' : Container) × (reset_master_password_with_local_key copying constant laptop none
        (codes "2028")
        fresh
        (codes "v")
        new_word
        none
        shared
        key_only
      ≡ inr c')
    × (unlock_with_password copying constant c' new_word ≡ inr vms)
    × ((id : Bytes) → id ≢ password_slot_id → c'.slots id ≡ shared.slots id)
reset_master_password_lem_example =
    reset_master_password_lem copying constant laptop none (codes "2028") (codes "v") fresh shared
      key_only new_word vms none (refl, refl) refl key_opens

password_opens_example :
    (s : KeySlot) × (create_password_slot copying constant fresh
        (codes "v")
        password_slot_id
        new_word
        vms
        none
        []
        []
      ≡ some s)
    × (s.slot_id ≡ password_slot_id)
    × (s.vault_id ≡ codes "v")
    × (s.label ≡ [])
    × (s.created_utc ≡ codes "2027")
    × (unwrap_password_slot copying constant s new_word ≡ inr (secret vms.buf))
password_opens_example =
    password_opens copying constant fresh (refl, refl) (codes "v") password_slot_id new_word vms
      none [] [] refl refl

-- The machine id is found in the second file only.
abbrev moved : Machine
moved = record laptop { machine_ids = none ∷ some (codes "abc") ∷ [] }

device_opens_example :
    (s : KeySlot) × (create_device_slot copying constant laptop fresh
        (codes "v")
        (slot_id_for_device (codes "d1"))
        (codes "d1")
        old_word
        none
        vms
        default_binding_inputs
        []
        []
      ≡ some s)
    × (s.slot_id ≡ slot_id_for_device (codes "d1"))
    × (unwrap_device_slot copying constant moved s old_word none ≡ inr (secret vms.buf))
unfolding to_bytes compute_binding component
device_opens_example =
    device_opens copying constant fresh (refl, refl) laptop moved (codes "v")
      (slot_id_for_device (codes "d1")) (codes "d1") old_word none vms default_binding_inputs [] []
      (codes "old") refl refl refl
