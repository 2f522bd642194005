-- ===== src/Recovery/Gate.antt =====
-- src/passman/core/recovery/codes.py: when the gate lets the recovery codes through.
use ash_password_manager.Common.{ℕ, ◌+◌, ◌≤◌, true, none, List, [], ◌∷◌, ◌≡◌, refl, ◌↔◌, arith}
use ash_password_manager.Recovery.{RevealGate, request, confirm, reset}

pub data Act : Type 0 where
  requests confirms : ℕ → Act
  resets : Act

abbrev pub act : Act → RevealGate → RevealGate
act (requests now) g = request now g
act (confirms now) g = (confirm now g).1
act resets g = reset g

-- The gate after some acts, the latest first.
abbrev pub gate_after : ℕ → List Act → RevealGate
gate_after ttl [] = record { ttl = ttl; requested_at = none }
gate_after ttl (a ∷ past) = act a (gate_after ttl past)

-- The latest act is a request, made no longer than `ttl` ago.
abbrev pub IsRequested : ℕ → ℕ → List Act → Type 0
IsRequested ttl now (requests at ∷ past) = now ≤ at + ttl
IsRequested ttl now _ = ⊥

gate_after-ttl : (ttl : ℕ) (past : List Act) → (gate_after ttl past).ttl ≡ ttl
unfolding request confirm reset
gate_after-ttl ttl [] = refl
gate_after-ttl ttl (requests at ∷ past) = gate_after-ttl ttl past
gate_after-ttl ttl (confirms at ∷ past) = ground (arith, gate_after-ttl ttl past)
gate_after-ttl ttl (resets ∷ past) = gate_after-ttl ttl past

-- After any acts on a new gate, confirming lets the codes through exactly if the latest act is a
-- request that is no older than the limit. So no request is used twice, and a reset takes it back.
pub confirm_iff :
    (ttl now : ℕ) (past : List Act)
    → ((confirm now (gate_after ttl past)).0 ≡ true) ↔ IsRequested ttl now past
unfolding request confirm reset
confirm_iff ttl now [] = ground arith
confirm_iff ttl now (requests at ∷ past) = ground (arith, gate_after-ttl ttl past)
confirm_iff ttl now (confirms at ∷ past) = ground arith
confirm_iff ttl now (resets ∷ past) = ground arith
