-- ===== src/Totp/Codes.antt =====
-- src/passman/core/totp/totp.py: the shape of a code, and how long it is shown.
use native.Mathlib.Nat.{one-le-pow}
use ash_password_manager.Common.{
  ℕ, zero, suc, ◌+◌, ◌/◌, ◌%◌, ◌^◌, ◌≤◌, ◌<◌, ◌≡◌, refl, sym, ◌∙◌, ap, inl, inr, true, none, some,
  [], ◌∷◌, Bytes, length, all, All, All-append, ltb, leb, arith, Bool-cases,
}
use ash_password_manager.Common.Decimal.{fixed, length-fixed, zfill-str}
use ash_password_manager.Totp.Base32.{b32decode}
use ash_password_manager.Totp.{
  TotpConfig, Hmac, hotp, truncate, generate_totp, seconds_remaining, slice, last_byte, to_bytes,
  counter_limit,
}

-- The characters `0` to `9`.
abbrev pub IsDecimal : ℕ → Type 0
IsDecimal c = (b'0' ≤ c) × (c ≤ b'9')

fixed-IsDecimal : (d n : ℕ) → All IsDecimal (fixed d n)
fixed-IsDecimal zero n = tt
fixed-IsDecimal (suc d) n =
    All-append IsDecimal (fixed d (n / 10)) ((b'0' + n % 10) ∷ []) (fixed-IsDecimal d (n / 10))
      ((omega arith, omega arith), tt)

decimal_ascii : (xs : Bytes) → All IsDecimal xs → all (λ c. ltb c 128) xs ≡ true
decimal_ascii [] h = refl
decimal_ascii (x ∷ xs) h = ground (arith, decimal_ascii xs)

length-slice : (n k : ℕ) (xs : Bytes) → n + k ≤ length xs → length (slice n k xs) ≡ k
length-slice zero zero xs h = refl
length-slice zero (suc k) [] h = absurd (omega arith)
length-slice zero (suc k) (x ∷ xs) h = ap suc (length-slice zero k xs (omega arith))
length-slice (suc n) k [] h = absurd (omega arith)
length-slice (suc n) k (x ∷ xs) h = length-slice n k xs (omega arith)

module _ (hmac : Hmac) (config : TotpConfig) (real : 1 ≤ config.digits) where
  -- The number that the code for a counter shows.
  abbrev pub number : Bytes → ℕ → ℕ
  number secret counter =
      truncate (hmac.digest config.algorithm secret (to_bytes 8 counter)) % 10 ^ config.digits

  number-lt : (secret : Bytes) (counter : ℕ) → number secret counter < 10 ^ config.digits
  number-lt secret counter = grind (arith, one-le-pow config.digits 10 (omega arith))

  pub hotp-some :
      (secret : Bytes) (counter : ℕ)
      → counter < counter_limit
      → hotp hmac secret counter config.digits config.algorithm
        ≡ some (fixed config.digits (number secret counter))
  unfolding hotp
  hotp-some secret counter h =
      ground
        (arith, zfill-str (number secret counter) config.digits real (number-lt secret counter))

  hotp-none :
      (secret : Bytes) (counter : ℕ)
      → counter_limit ≤ counter
      → hotp hmac secret counter config.digits config.algorithm ≡ none
  unfolding hotp
  hotp-none secret counter h = ground arith

  pub hotp_cases :
      (secret : Bytes) (counter : ℕ) {code : Bytes}
      → hotp hmac secret counter config.digits config.algorithm ≡ some code
      → (counter < counter_limit) × (code ≡ fixed config.digits (number secret counter))
  hotp_cases secret counter {code} e = elim (Bool-cases (leb counter_limit counter)) [
    | inl over ↦ absurd (cc (e, hotp-none secret counter (ground arith)))
    | inr fits ↦ ground (arith, hotp-some secret counter)
  ]

  pub hotp_ascii :
      (secret : Bytes) (counter : ℕ) {code : Bytes}
      → hotp hmac secret counter config.digits config.algorithm ≡ some code
      → all (λ c. ltb c 128) code ≡ true
  hotp_ascii secret counter {code} e = rw ((hotp_cases secret counter e).1) (
      decimal_ascii (fixed config.digits (number secret counter))
        (fixed-IsDecimal config.digits (number secret counter)))

  generate-hotp :
      (t : ℕ) {secret : Bytes}
      → b32decode config.secret_base32 ≡ some secret
      → generate_totp hmac config t
        ≡ hotp hmac secret (t / config.period) config.digits config.algorithm
  unfolding generate_totp
  generate-hotp t e = rw (e, generate_totp)

  -- With at least one digit, a code that is generated has exactly the digits asked for, each a decimal
  -- digit, and shows the truncated digest modulo the power of ten; the four bytes of the truncation
  -- lie inside the digest.
  pub generate_totp_shape :
      (t : ℕ) {code secret : Bytes}
      → b32decode config.secret_base32 ≡ some secret
      → generate_totp hmac config t ≡ some code
      → let digest = hmac.digest config.algorithm secret (to_bytes 8 (t / config.period)) in
        (length code ≡ config.digits)
        × All IsDecimal code
        × (code ≡ fixed config.digits (truncate digest % 10 ^ config.digits))
        × (length (slice (last_byte digest % 16) 4 digest) ≡ 4)
  generate_totp_shape t {code} {secret} e g =
      let shown : code ≡ fixed config.digits (number secret (t / config.period)) =
        (hotp_cases secret (t / config.period) (sym (generate-hotp t e) ∙ g)).1 in
      (
        rw shown (length-fixed config.digits (number secret (t / config.period))),
        rw shown (fixed-IsDecimal config.digits (number secret (t / config.period))),
        shown,
        length-slice (last_byte digest % 16) 4 digest
            (omega (arith, hmac.long config.algorithm secret (to_bytes 8 (t / config.period)))),
      )
    where
      digest : Bytes
      digest = hmac.digest config.algorithm secret (to_bytes 8 (t / config.period))

-- With a positive period, between one second and a whole period is left of the present code, and the
-- counter is the same until then and changes at that second.
pub seconds_remaining_bounds :
    (config : TotpConfig) (t : ℕ)
    → 0 < config.period
    → let left = seconds_remaining config t in
      (1 ≤ left)
      × (left ≤ config.period)
      × ((s : ℕ) → s < left → (t + s) / config.period ≡ t / config.period)
      × ((t + left) / config.period ≡ t / config.period + 1)
unfolding seconds_remaining
seconds_remaining_bounds config t h = (grind arith, grind arith, λ s l. grind arith, grind arith)
