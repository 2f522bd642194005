-- ===== src/Security/Logging.antt =====
-- src/passman/core/security/logging.py: what may be written to the log. `str.lower` and the search for
-- the pattern of secrets are parameters, since they go by the tables of Unicode.
use ash_password_manager.Common.{
  ℕ, zero, suc, ◌-◌, Bool, true, false, Option, none, some, List, [], ◌∷◌, ◌++◌, Bytes, any, leb,
  same_bytes, length, replicate, ◌≡◌, refl, ap, ◌∙◌, arith, if◌then◌else◌,
}
use ash_password_manager.Common.Chars.{codes}

abbrev pub forbidden_field_names : List Bytes
forbidden_field_names =
    codes "password"
    ∷ codes "passphrase"
    ∷ codes "secret"
    ∷ codes "totp_secret"
    ∷ codes "totp_code"
    ∷ codes "recovery_code"
    ∷ codes "recovery_codes"
    ∷ codes "key_file"
    ∷ codes "keyfile"
    ∷ codes "luks_password"
    ∷ []

-- `value[:n]`
abbrev pub prefix : ℕ → Bytes → Bytes
prefix zero s = []
prefix (suc n) [] = []
prefix (suc n) (c ∷ cs) = c ∷ prefix n cs

unfoldable pub redact_identifier : Bytes → ℕ → Bytes
redact_identifier [] keep = []
redact_identifier (c ∷ cs) keep =
    if leb (length (c ∷ cs)) keep
    then replicate (length (c ∷ cs)) b'*'
    else prefix keep (c ∷ cs) ++ replicate (length (c ∷ cs) - keep) b'*'

module _ (lower : Bytes → Bytes) where
  abbrev pub is_forbidden : Bytes → Bool
  is_forbidden name = any (same_bytes (lower name)) forbidden_field_names

  -- Nothing is the UnsafeLogFieldError.
  abbrev pub refused : {A : Type 0} → List (Bytes × A) → Bool
  refused [] = false
  refused ((name, value) ∷ fields) =
      let rest = refused fields in if is_forbidden name then true else rest

  unfoldable pub safe_extra : {A : Type 0} → List (Bytes × A) → Option (List (Bytes × A))
  safe_extra fields = if refused fields then none else some fields

unfoldable pub scrub_argv : (Bytes → Bool) → List Bytes → List Bytes
scrub_argv is_secret [] = []
scrub_argv is_secret (arg ∷ args) =
    (if is_secret arg then codes "[REDACTED]" else arg) ∷ scrub_argv is_secret args

length-replicate : (n c : ℕ) → length (replicate n c) ≡ n
length-replicate zero c = refl
length-replicate (suc n) c = ap suc (length-replicate n c)

-- What is logged of an identifier says no more of it than its length and its first characters.
pub redact_identifier-eq :
    (v w : Bytes) (keep : ℕ)
    → length v ≡ length w
    → prefix keep v ≡ prefix keep w
    → redact_identifier v keep ≡ redact_identifier w keep
unfolding redact_identifier
redact_identifier-eq [] [] keep h e = refl
redact_identifier-eq [] (d ∷ ds) keep h e = absurd (omega (arith, h))
redact_identifier-eq (c ∷ cs) [] keep h e = absurd (omega (arith, h))
redact_identifier-eq (c ∷ cs) (d ∷ ds) keep h e = by_parts (length (c ∷ cs)) (length (d ∷ ds)) h
  where
    shown : ℕ → Bytes → Bytes
    shown n s = if leb n keep then replicate n b'*' else s ++ replicate (n - keep) b'*'

    by_parts : (m n : ℕ) → m ≡ n → shown m (prefix keep (c ∷ cs)) ≡ shown n (prefix keep (d ∷ ds))
    by_parts m n k = ap (λ i. shown i (prefix keep (c ∷ cs))) k ∙ ap (shown n) e
