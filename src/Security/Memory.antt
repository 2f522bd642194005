-- ===== src/Security/Memory.antt =====
-- src/passman/core/security/memory.py: a mutable, wipeable holder of secret bytes.
use ash_password_manager.Common.{
  ℕ, Bool, true, false, not, ◌&&◌, ltb, List, [], ◌∷◌, map, length, Option, none, some, All, ◌≡◌,
  refl, if◌then◌else◌,
}

pub record SecretBytes : Type 0 where
  pub buf : List ℕ
  pub wiped : Bool

-- The constructor, on bytes.
unfoldable pub secret : List ℕ → SecretBytes
secret bytes = record { buf = bytes; wiped = false }

-- `bool(s)`
unfoldable pub truthy : SecretBytes → Bool
truthy s = not s.wiped && ltb 0 (length s.buf)

-- `none` is the ValueError of a wiped buffer.
unfoldable pub to_bytes : SecretBytes → Option (List ℕ)
to_bytes s = if s.wiped then none else some s.buf

-- Zeros in place; a second call finds the flag and leaves.
unfoldable pub wipe : SecretBytes → SecretBytes
wipe s = if s.wiped then s else record { buf = map (λ b. 0) s.buf; wiped = true }

-- Leaving the `with` block wipes.
unfoldable pub exit_context : SecretBytes → SecretBytes
exit_context s = wipe s

-- Every byte of the buffer is zero.
abbrev pub IsZeroed : SecretBytes → Type 0
IsZeroed s = All (λ b. b ≡ 0) s.buf

pub zeros-IsZeroed : (bytes : List ℕ) → All (λ (b : ℕ). b ≡ 0) (map (λ b. 0) bytes)
zeros-IsZeroed [] = tt
zeros-IsZeroed (b ∷ bytes) = (refl, zeros-IsZeroed bytes)
