-- ===== src/Common/Texts.antt =====
-- Byte strings and texts as lists of numbers: equality, prefixes, membership.
use Prim.Native.Nat.{ℕ}
use mathlib.Core.Path.{◌≡◌, refl}
use mathlib.Core.Bool.{Bool, true, false, ◌&&◌, ◌||◌}
use mathlib.Core.List.{List, [], ◌∷◌}
use native.Mathlib.Omega.{arith}
use ash_password_manager.Common.Tests.{◌==◌}

abbrev pub Bytes : Type 0
Bytes = List ℕ

unfoldable pub same_bytes : Bytes → Bytes → Bool
same_bytes [] [] = true
same_bytes [] (b ∷ bs) = false
same_bytes (a ∷ as') [] = false
same_bytes (a ∷ as') (b ∷ bs) = a == b && same_bytes as' bs

pub same_bytes→eq : (xs ys : Bytes) → same_bytes xs ys ≡ true → xs ≡ ys
unfolding same_bytes
same_bytes→eq [] [] h = refl
same_bytes→eq [] (b ∷ bs) h = cc
same_bytes→eq (a ∷ xs) [] h = cc
same_bytes→eq (a ∷ xs) (b ∷ ys) h = ground (arith, same_bytes→eq xs ys)

pub same_bytes_refl : (xs : Bytes) → same_bytes xs xs ≡ true
unfolding same_bytes
same_bytes_refl [] = refl
same_bytes_refl (a ∷ xs) = ground (arith, same_bytes_refl xs)

pub eq→same_bytes : (xs ys : Bytes) → xs ≡ ys → same_bytes xs ys ≡ true
eq→same_bytes xs ys e = rw e (same_bytes_refl ys)

-- `c in s` for one character.
abbrev pub elem : ℕ → Bytes → Bool
elem c [] = false
elem c (x ∷ xs) = c == x || elem c xs
