-- ===== src/Recovery.antt =====
-- src/passman/core/recovery/codes.py: recovery codes, and the two-step gate in front of them. Times
-- are in ticks.
pub mod Codes
pub mod Gate
pub mod Tests
use ash_password_manager.Common.{
  ℕ, ◌-◌, Bool, true, false, not, Option, none, some, Bytes, ltb, if◌then◌else◌,
}

pub record RecoveryCode : Type 0 where
  pub code : Bytes
  pub used : Bool
  pub label : Bytes

pub record RevealGate : Type 0 where
  pub ttl : ℕ
  pub requested_at : Option ℕ

unfoldable pub request : ℕ → RevealGate → RevealGate
request now g = record g { requested_at = some now }

-- A clock that is behind the request gives a difference below every limit; so does `-` here.
unfoldable pub confirm : ℕ → RevealGate → Bool × RevealGate
confirm now g = elim g.requested_at [
  | none ↦ (false, g)
  | some at ↦ (not (ltb g.ttl (now - at)), record g { requested_at = none })
]

unfoldable pub reset : RevealGate → RevealGate
reset g = record g { requested_at = none }
