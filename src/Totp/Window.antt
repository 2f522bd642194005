-- ===== src/Totp/Window.antt =====
-- src/passman/core/totp/totp.py: which codes are accepted.
use ash_password_manager.Common.{
  ℕ, zero, suc, ◌+◌, ◌-◌, ◌*◌, ◌/◌, ◌≤◌, ◌<◌, ◌≡◌, sym, subst, ltb→lt, ◌∙◌, ap, ◌⊎◌, ◌↔◌, inl, inr,
  true, false, some, Bytes, same_bytes, same_bytes→eq, same_bytes_refl, all, ltb, arith, Bool-cases,
  Option-cases,
}
use ash_password_manager.Common.Decimal.{fixed}
use ash_password_manager.Totp.Base32.{b32decode}
use ash_password_manager.Totp.{TotpConfig, Hmac, hotp, verify_from, verify_totp, compare_digest}
use ash_password_manager.Totp.Codes.{number, hotp-some, hotp_cases, hotp_ascii}

module _ (hmac : Hmac) (config : TotpConfig) (real : 1 ≤ config.digits) where
  -- One round of the window passes where it is before the epoch, or its code is another.
  abbrev Passes : Bytes → Bytes → ℕ → ℕ → ℕ → Type 0
  Passes secret code counter window k =
      (counter + k < window)
      ⊎ ((other : Bytes) × (hotp hmac secret (counter + k - window) config.digits config.algorithm
            ≡ some other)
          × (same_bytes other code ≡ false))

  module _ (secret code : Bytes) (counter window : ℕ) where
    abbrev Shown : ℕ → Type 0
    Shown k =
        (window ≤ counter + k)
        × (hotp hmac secret (counter + k - window) config.digits config.algorithm ≡ some code)

    round_hit :
        (k left : ℕ)
        → Shown k
        → verify_from hmac config secret code counter window k (suc left) ≡ some true
    unfolding verify_from compare_digest
    round_hit k left (w, e) =
        ground
          (arith, hotp_ascii hmac config real secret (counter + k - window) e, same_bytes_refl code)

    round_pass :
        (k left : ℕ)
        → all (λ c. ltb c 128) code ≡ true
        → Passes secret code counter window k
        → verify_from hmac config secret code counter window k (suc left)
          ≡ verify_from hmac config secret code counter window (suc k) left
    unfolding verify_from compare_digest
    round_pass k left a p = ground arith

    round_true :
        (k left : ℕ)
        → verify_from hmac config secret code counter window k (suc left) ≡ some true
        → Shown k ⊎ (verify_from hmac config secret code counter window (suc k) left ≡ some true)
    unfolding verify_from compare_digest
    round_true k left h =
        elim (Option-cases
          (hotp hmac secret (counter + k - window) config.digits config.algorithm)) [
            | inl e ↦ ground arith
            | inr (other, e) ↦ ground (arith, same_bytes→eq other code)
          ]

    no_rounds : (k : ℕ) → verify_from hmac config secret code counter window k 0 ≡ some true → ⊥
    unfolding verify_from
    no_rounds k h = cc

    pass_or_Shown : (k j : ℕ) → k ≤ j → Shown j → Passes secret code counter window k ⊎ Shown k
    pass_or_Shown k j le (w, e) = elim (Bool-cases (ltb (counter + k) window)) [
      | inl early ↦ inl (inl (ground arith))
      | inr late ↦
          let c = counter + k - window in
          let code_k = fixed config.digits (number hmac config real secret c) in
          let shown =
            hotp-some hmac config real secret c
              (omega (arith, (hotp_cases hmac config real secret (counter + j - window) e).0)) in
          elim (Bool-cases (same_bytes code_k code)) [
            | inl same ↦
                inr (
                  ground arith,
                  shown ∙ ap (λ (x : Bytes). some x) (same_bytes→eq code_k code same),
                )
            | inr other ↦ inl (inr (code_k, shown, other))
          ]
    ]

    found→true :
        (left k j : ℕ)
        → k ≤ j
        → j < k + left
        → Shown j
        → verify_from hmac config secret code counter window k left ≡ some true
    found→true zero k j low high s = absurd (omega arith)
    found→true (suc left) k j low high s = elim (Bool-cases (ltb k j)) [
      | inr last ↦ let same : j ≡ k = ground arith in round_hit k left (subst Shown same s)
      | inl later ↦ elim (pass_or_Shown k j low s) [
        | inr hit ↦ round_hit k left hit
        | inl passes ↦
            round_pass k left (hotp_ascii hmac config real secret (counter + j - window) s.1) passes
            ∙ found→true left (suc k) j (ltb→lt k j later) (omega arith) s
      ]
    ]

    true→found :
        (left k : ℕ)
        → verify_from hmac config secret code counter window k left ≡ some true
        → (j : ℕ) × (j < k + left) × Shown j
    true→found zero k h = absurd (no_rounds k h)
    true→found (suc left) k h = elim (round_true k left h) [
      | inl hit ↦ (k, omega arith, hit)
      | inr more ↦ let (j, below, s) = true→found left (suc k) more in (j, omega arith, s)
    ]

  verify_rounds :
      (t window : ℕ) (code : Bytes) {secret : Bytes}
      → b32decode config.secret_base32 ≡ some secret
      → verify_totp hmac config code t window
        ≡ verify_from hmac config secret code (t / config.period) window 0 (2 * window + 1)
  unfolding verify_totp
  verify_rounds t window code e = rw (e, verify_totp)

  -- With at least one digit, and a secret that decodes: a code is accepted exactly if it is the code
  -- of a counter that is at most `window` periods away from the present one.
  pub verify_totp_iff :
      (t window : ℕ) (code : Bytes) {secret : Bytes}
      → b32decode config.secret_base32 ≡ some secret
      → (verify_totp hmac config code t window ≡ some true) ↔ (
          (c : ℕ) × (t / config.period ≤ c + window)
          × (c ≤ t / config.period + window)
          × (hotp hmac secret c config.digits config.algorithm ≡ some code))
  verify_totp_iff t window code {secret} e = (accepted, found)
    where
      now : ℕ
      now = t / config.period

      accepted :
          verify_totp hmac config code t window ≡ some true
          → (c : ℕ) × (now ≤ c + window)
            × (c ≤ now + window)
            × (hotp hmac secret c config.digits config.algorithm ≡ some code)
      accepted h =
          let (j, below, hit) =
            true→found secret code now window (2 * window + 1) 0
              (sym (verify_rounds t window code e) ∙ h) in
          (now + j - window, omega (arith, hit.0), omega (arith, hit.0), hit.1)

      found :
          ((c : ℕ) × (now ≤ c + window)
            × (c ≤ now + window)
            × (hotp hmac secret c config.digits config.algorithm ≡ some code))
          → verify_totp hmac config code t window ≡ some true
      found (c, low, high, shown) =
          let j = c + window - now in
          let back : now + j - window ≡ c = omega arith in
          verify_rounds t window code e
          ∙ found→true secret code now window (2 * window + 1) 0 j (omega arith) (omega arith)
              (omega arith, rw back shown)
