-- ===== src/Totp.antt =====
-- src/passman/core/totp/totp.py: one-time passwords (RFC 6238). Times are whole seconds.
pub mod Base32
pub mod Codes
pub mod Window
pub mod Tests
use ash_password_manager.Common.{
  ℕ, zero, suc, ◌+◌, ◌-◌, ◌*◌, ◌/◌, ◌%◌, ◌^◌, ◌≤◌, String, Bool, true, false, not, ◌&&◌, ◌||◌,
  ◌=s=◌, Option, none, some, List, [], ◌∷◌, ◌++◌, Bytes, same_bytes, length, get_elem?, all, ltb,
  leb, if◌then◌else◌,
}
use ash_password_manager.Common.Decimal.{str, zfill}
use ash_password_manager.Totp.Base32.{normalize_base32_secret, b32decode}

pub record TotpConfig : Type 0 where
  pub secret_base32 : Bytes
  pub digits : ℕ
  pub period : ℕ
  pub algorithm : String

-- `hmac.new(key, msg, hash).digest()` for the name of a hash function; a digest has at least the
-- twenty bytes of SHA-1.
pub record Hmac : Type 0 where
  pub digest : String → Bytes → Bytes → Bytes
  pub long : (algorithm : String) (key msg : Bytes) → 20 ≤ length (digest algorithm key msg)

abbrev pub is_known : String → Bool
is_known a = a =s= "SHA1" || a =s= "SHA256" || a =s= "SHA512"

-- The constructor with its checks; `none` is InvalidTotpSecretError. `upper` is `str.upper`.
unfoldable pub make_config : (Bytes → Bytes) → Bytes → ℕ → ℕ → String → Option TotpConfig
make_config upper raw digits period algorithm = elim (normalize_base32_secret upper raw) [
  | none ↦ none
  | some secret ↦
      if not (is_known algorithm)
      then none
      else if not (leb 6 digits && leb digits 10)
      then none
      else if leb period 0
      then none
      else some (record {
        secret_base32 = secret;
        digits = digits;
        period = period;
        algorithm = algorithm;
      })
]

-- Big-endian bytes of a number, and back.
abbrev pub to_bytes : ℕ → ℕ → Bytes
to_bytes zero n = []
to_bytes (suc w) n = to_bytes w (n / 256) ++ (n % 256) ∷ []

abbrev pub from_bytes : ℕ → Bytes → ℕ
from_bytes acc [] = acc
from_bytes acc (b ∷ bs) = from_bytes (acc * 256 + b) bs

-- `xs[n : n + k]`, which stops at the end of the list.
abbrev pub slice : ℕ → ℕ → Bytes → Bytes
slice zero zero xs = []
slice zero (suc k) [] = []
slice zero (suc k) (x ∷ xs) = x ∷ slice zero k xs
slice (suc n) k [] = []
slice (suc n) k (x ∷ xs) = slice n k xs

abbrev pub last_byte : Bytes → ℕ
last_byte [] = 0
last_byte (b ∷ []) = b
last_byte (b ∷ c ∷ bs) = last_byte (c ∷ bs)

abbrev pub counter_limit : ℕ
counter_limit = 2 ^ 64

-- RFC 4226, 5.3: the last four bits of the digest say where its 31 bits are read.
unfoldable pub truncate : Bytes → ℕ
truncate digest = from_bytes 0 (slice (last_byte digest % 16) 4 digest) % 2 ^ 31

module _ (hmac : Hmac) where
  -- `none` is the OverflowError of `counter.to_bytes(8, "big")`.
  unfoldable pub hotp : Bytes → ℕ → ℕ → String → Option Bytes
  unfolding truncate
  hotp secret counter digits algorithm =
      if leb counter_limit counter
      then none
      else some (
          zfill (str (truncate (hmac.digest algorithm secret (to_bytes 8 counter)) % 10 ^ digits))
            digits)

  unfoldable pub generate_totp : TotpConfig → ℕ → Option Bytes
  generate_totp config t = elim (b32decode config.secret_base32) [
    | none ↦ none
    | some secret ↦ hotp secret (t / config.period) config.digits config.algorithm
  ]

  -- `hmac.compare_digest` refuses a text that is not ASCII.
  compare_digest : Bytes → Bytes → Option Bool
  compare_digest candidate code =
      if all (λ c. ltb c 128) code then some (same_bytes candidate code) else none

  -- The rounds of `for offset in range(-window, window + 1)`, with `k = offset + window`; `left` rounds
  -- are left. `none` is an exception.
  verify_from : TotpConfig → Bytes → Bytes → ℕ → ℕ → ℕ → ℕ → Option Bool
  unfolding compare_digest
  verify_from config secret code counter window k zero = some false
  verify_from config secret code counter window k (suc left) =
      let rest = verify_from config secret code counter window (suc k) left in
      if ltb (counter + k) window
      then rest
      else (elim (hotp secret (counter + k - window) config.digits config.algorithm) [
        | none ↦ none
        | some candidate ↦ elim (compare_digest candidate code) [
          | none ↦ none
          | some true ↦ some true
          | some false ↦ rest
        ]
      ])

  unfoldable pub verify_totp : TotpConfig → Bytes → ℕ → ℕ → Option Bool
  unfolding verify_from
  verify_totp config code t window = elim (b32decode config.secret_base32) [
    | none ↦ none
    | some secret ↦ verify_from config secret code (t / config.period) window 0 (2 * window + 1)
  ]

unfoldable pub seconds_remaining : TotpConfig → ℕ → ℕ
seconds_remaining config t = config.period - t % config.period
