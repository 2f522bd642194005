-- ===== src/Crypto/Aead.antt =====
-- src/passman/core/crypto/aead.py: AES-256-GCM. The cipher itself is a parameter, and so are the
-- random nonces.
use ash_password_manager.Common.{
  not, ◌||◌, ◌==◌, Option, none, some, arith, Bytes, length, if◌then◌else◌, ◌≡◌,
}

pub record SealedBox : Type 0 where
  pub nonce : Bytes
  pub ciphertext : Bytes
  pub tag : Bytes

-- `encrypt_and_digest` and `decrypt_and_verify` of a GCM cipher, given the key, the nonce, the
-- associated data and the text; a `none` is the ValueError of a tag that does not fit. What was
-- encrypted is decrypted with the same key, nonce and associated data, and a tag has 16 bytes.
pub record Gcm : Type 0 where
  pub encrypt : Bytes → Bytes → Bytes → Bytes → Bytes × Bytes
  pub decrypt : Bytes → Bytes → Bytes → Bytes → Bytes → Option Bytes
  pub inverse :
      (key nonce aad text : Bytes)
      → decrypt key nonce aad (encrypt key nonce aad text).0 (encrypt key nonce aad text).1
        ≡ some text
  pub tag_length : (key nonce aad text : Bytes) → length (encrypt key nonce aad text).1 ≡ 16

-- `none` is the ValueError of a key that has not 32 bytes.
unfoldable pub seal : Gcm → Bytes → Bytes → Bytes → Bytes → Option SealedBox
seal gcm nonce key plaintext aad =
    let (ciphertext, tag) = gcm.encrypt key nonce aad plaintext in
    if not (length key == 32)
    then none
    else some (record { nonce = nonce; ciphertext = ciphertext; tag = tag })

pub data Opened : Type 0 where
  opened : Bytes → Opened
  aead_error value_error : Opened

abbrev verified : Option Bytes → Opened
verified none = aead_error
verified (some text) = opened text

unfoldable pub open_box : Gcm → Bytes → SealedBox → Bytes → Opened
open_box gcm key box aad =
    if not (length key == 32)
    then value_error
    else if not (length box.nonce == 12) || not (length box.tag == 16)
    then aead_error
    else verified (gcm.decrypt key box.nonce aad box.ciphertext box.tag)

-- Sealing with a nonce of 12 bytes and a key of 32 gives a box that opens to the same text.
pub open_box-seal :
    (gcm : Gcm) (nonce key plaintext aad : Bytes)
    → length nonce ≡ 12
    → length key ≡ 32
    → (box : SealedBox) × (seal gcm nonce key plaintext aad ≡ some box)
      × (open_box gcm key box aad ≡ opened plaintext)
unfolding seal open_box
open_box-seal gcm nonce key plaintext aad n k =
    let (ciphertext, tag) = gcm.encrypt key nonce aad plaintext in
    (
      record { nonce = nonce; ciphertext = ciphertext; tag = tag },
      ground arith,
      ground (arith, gcm.inverse key nonce aad plaintext, gcm.tag_length key nonce aad plaintext),
    )
