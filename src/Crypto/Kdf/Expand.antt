-- ===== src/Crypto/Kdf/Expand.antt =====
-- src/passman/core/crypto/kdf.py: what HKDF returns.
use ash_password_manager.Common.{
  ℕ, zero, suc, ◌+◌, ◌*◌, ◌≤◌, true, inl, inr, some, [], ◌∷◌, ◌++◌, Bytes, length, length-append,
  ltb, ◌≡◌, refl, ap, arith, Bool-cases, ltb→lt, lt→ltb,
}
use ash_password_manager.Crypto.Kdf.{Hashes, expand, hkdf_sha256, first_bytes}

length-first : (n : ℕ) (xs : Bytes) → n ≤ length xs → length (first_bytes n xs) ≡ n
length-first zero xs h = refl
length-first (suc n) [] h = absurd (omega arith)
length-first (suc n) (x ∷ xs) h = ap suc (length-first n xs (omega arith))

module _ (hashes : Hashes) (prk info : Bytes) where
  -- T(n) of RFC 5869, 2.3, and T(1) | … | T(n).
  abbrev pub block : ℕ → Bytes
  block zero = []
  block (suc n) = hashes.hmac_sha256 prk (block n ++ info ++ suc n ∷ [])

  abbrev pub blocks : ℕ → Bytes
  blocks zero = []
  blocks (suc n) = blocks n ++ block (suc n)

  length-blocks : (n : ℕ) → length (blocks n) ≡ 32 * n
  length-blocks zero = refl
  length-blocks (suc n) = omega (
    arith,
    length-append {0} (blocks n) (block (suc n)),
    length-blocks n,
    hashes.hmac_length prk (block n ++ info ++ suc n ∷ []),
  )

  -- The loop, after `n` rounds, ends with enough blocks.
  expand-blocks :
      (fuel n len : ℕ)
      → len ≤ 255 * 32
      → len ≤ 32 * n + fuel
      → (m : ℕ) × (expand hashes fuel prk info (suc n) (block n) (blocks n) len ≡ some (blocks m))
        × (len ≤ 32 * m)
  unfolding expand
  expand-blocks zero n len limit enough = (n, refl, omega arith)
  expand-blocks (suc fuel) n len limit enough = elim (Bool-cases (ltb (length (blocks n)) len)) [
    | inr done ↦ (n, rw done refl, grind (arith, length-blocks n))
    | inl more ↦
        let (m, e, h) = expand-blocks fuel (suc n) len limit (omega arith) in
        let below : ltb (suc n) 256 ≡ true =
          lt→ltb (suc n) 256
            (omega (arith, ltb→lt (length (blocks n)) len more, length-blocks n)) in
        (m, rw (more, below) e, h)
  ]

-- For every length that RFC 5869 admits the derivation ends without an exception, and returns exactly
-- that many bytes: the first of T(1), T(2), …, of which there are enough.
pub hkdf_sha256_lem :
    (hashes : Hashes) (ikm salt info : Bytes) (len : ℕ)
    → 1 ≤ len
    → len ≤ 255 * 32
    → let prk = hashes.hmac_sha256 salt ikm in
      (m : ℕ) × (hkdf_sha256 hashes ikm salt info len
        ≡ some (first_bytes len (blocks hashes prk info m)))
      × (length (first_bytes len (blocks hashes prk info m)) ≡ len)
unfolding hkdf_sha256
hkdf_sha256_lem hashes ikm salt info len positive limit =
    let prk = hashes.hmac_sha256 salt ikm in
    let (m, e, h) = expand-blocks hashes prk info len 0 len limit (omega arith) in
    (
      m,
      ground (arith, e),
      length-first len (blocks hashes prk info m) (omega (arith, length-blocks hashes prk info m)),
    )
