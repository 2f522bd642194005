-- ===== src/Crypto/Kdf.antt =====
-- src/passman/core/crypto/kdf.py: the limits of the cost of Argon2id, and HKDF-SHA256 by RFC 5869.
pub mod Dict
pub mod Expand
use ash_password_manager.Common.{
  ℕ, zero, suc, ◌+◌, ◌*◌, ◌≤◌, Bool, true, false, not, ◌&&◌, Option, none, some, List, [], ◌∷◌,
  ◌++◌, Bytes, length, ltb, leb, if◌then◌else◌, ◌≡◌,
}
use ash_password_manager.Security.Memory.{SecretBytes, to_bytes}

pub record Argon2Params : Type 0 where
  pub time_cost : ℕ
  pub memory_cost_kib : ℕ
  pub parallelism : ℕ

-- The constructor; `none` is its ValueError.
unfoldable pub make_params : ℕ → ℕ → ℕ → Option Argon2Params
make_params time memory lanes =
    if not (leb 1 time && leb time 16)
    then none
    else if not (leb 1 lanes && leb lanes 16)
    then none
    else if not (leb (8 * lanes) memory && leb memory (512 * 1024))
    then none
    else if ltb (4 * 1024 * 1024) (time * memory)
    then none
    else some (record { time_cost = time; memory_cost_kib = memory; parallelism = lanes })

abbrev pub default_params : Argon2Params
default_params = record { time_cost = 4; memory_cost_kib = 256 * 1024; parallelism = 2 }

-- `hash_secret_raw` with `hash_len=32`, and HMAC-SHA256: what they return has 32 bytes.
pub record Hashes : Type 0 where
  pub argon2id : Bytes → Bytes → Argon2Params → Bytes
  pub hmac_sha256 : Bytes → Bytes → Bytes
  pub sha256 : Bytes → Bytes
  pub argon2id_length :
      (secret salt : Bytes) (params : Argon2Params) → length (argon2id secret salt params) ≡ 32
  pub hmac_length : (key msg : Bytes) → length (hmac_sha256 key msg) ≡ 32

abbrev derived : Hashes → Option Bytes → Bytes → Argon2Params → Option Bytes
derived hashes none salt params = none
derived hashes (some bytes) salt params = some (hashes.argon2id bytes salt params)

-- `none` is a ValueError: of a short salt, or of a password that has been wiped.
unfoldable pub derive_key_argon2id : Hashes → SecretBytes → Bytes → Argon2Params → Option Bytes
derive_key_argon2id hashes password salt params =
    if ltb (length salt) 16 then none else derived hashes (to_bytes password) salt params

-- `okm[:length]`
abbrev pub first_bytes : ℕ → Bytes → Bytes
first_bytes zero xs = []
first_bytes (suc n) [] = []
first_bytes (suc n) (x ∷ xs) = x ∷ first_bytes n xs

module _ (hashes : Hashes) where
  -- `while len(okm) < length`; `none` is the ValueError of `bytes([counter])`. Each round adds 32 bytes,
  -- so `length` rounds are enough.
  unfoldable pub expand : ℕ → Bytes → Bytes → ℕ → Bytes → Bytes → ℕ → Option Bytes
  expand zero prk info counter t okm len = some okm
  expand (suc fuel) prk info counter t okm len =
      let block = hashes.hmac_sha256 prk (t ++ info ++ counter ∷ []) in
      let rest = expand fuel prk info (suc counter) block (okm ++ block) len in
      if not (ltb (length okm) len) then some okm else if not (ltb counter 256) then none else rest

  abbrev cut : ℕ → Option Bytes → Option Bytes
  cut len none = none
  cut len (some okm) = some (first_bytes len okm)

  -- `none` is a ValueError.
  unfoldable pub hkdf_sha256 : Bytes → Bytes → Bytes → ℕ → Option Bytes
  unfolding expand
  hkdf_sha256 ikm salt info len =
      if not (leb 1 len && leb len (255 * 32))
      then none
      else cut len (expand len (hashes.hmac_sha256 salt ikm) info 1 [] [] len)
