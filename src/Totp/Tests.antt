-- ===== src/Totp/Tests.antt =====
-- Codes at a concrete configuration, whose digest is twenty bytes of ones.
use ash_password_manager.Common.{
  ℕ, ◌+◌, ◌/◌, ◌≤◌, true, some, [], ◌∷◌, ◌≡◌, refl, ◌↔◌, Bytes, replicate, arith,
}
use ash_password_manager.Common.Decimal.{str, zfill}
use ash_password_manager.Common.Chars.{codes}
use ash_password_manager.Totp.{TotpConfig, Hmac, hotp, truncate, generate_totp, verify_totp}
use ash_password_manager.Totp.Base32.{b32decode}
use ash_password_manager.Totp.Window.{verify_totp_iff}

abbrev ones : Hmac
ones = record {
  digest = λ algorithm key msg. replicate 20 1;
  long = λ algorithm key msg. omega arith;
}

abbrev config : TotpConfig
config = record { secret_base32 = codes "JBSWY3DP"; digits = 6; period = 30; algorithm = "SHA1" }

abbrev hello : Bytes
hello = 72 ∷ 101 ∷ 108 ∷ 108 ∷ 111 ∷ []

decoded : b32decode config.secret_base32 ≡ some hello
unfolding b32decode
decoded = refl

-- 0x01010101 is 16843009.
shown : generate_totp ones config 59 ≡ some (codes "843009")
unfolding generate_totp hotp truncate b32decode str zfill
shown = refl

verify_totp_iff_example : (verify_totp ones config (codes "843009") 59 1 ≡ some true) ↔ (
    (c : ℕ) × (59 / 30 ≤ c + 1)
    × (c ≤ 59 / 30 + 1)
    × (hotp ones hello c 6 "SHA1" ≡ some (codes "843009")))
verify_totp_iff_example = verify_totp_iff ones config (omega arith) 59 1 (codes "843009") decoded
