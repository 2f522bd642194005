-- ===== src/Common/Decimal.antt =====
-- Python's `str` of a non-negative integer, `zfill`, and `int` of a text (ASCII digits).
use Prim.Native.Nat.{ℕ, zero, suc, ◌+◌, ◌-◌, ◌/◌, ◌%◌, ◌^◌, ◌≤◌, ◌<◌}
use mathlib.Core.Path.{◌≡◌, refl, ap, ◌∙◌}
use mathlib.Core.Logic.{inl, inr}
use mathlib.Core.Bool.{true, false}
use mathlib.Core.List.{[], ◌∷◌, ◌++◌, append_assoc}
use native.Mathlib.Omega.{arith}
use native.Mathlib.Nat.{pow-suc}
use ash_password_manager.Common.Tests.{ltb, Bool-cases, ltb→lt}
use ash_password_manager.Common.Lists.{length, replicate, length-append}
use ash_password_manager.Common.Texts.{Bytes}

-- One round for each digit; `n` rounds are enough for `n`.
str_from : ℕ → ℕ → Bytes
str_from zero n = (b'0' + n % 10) ∷ []
str_from (suc f) n = elim (ltb n 10) [
  | true ↦ (b'0' + n) ∷ []
  | false ↦ str_from f (n / 10) ++ (b'0' + n % 10) ∷ []
]

unfoldable pub str : ℕ → Bytes
unfolding str_from
str n = str_from n n

unfoldable pub zfill : Bytes → ℕ → Bytes
zfill s width = replicate (width - length s) b'0' ++ s

-- The last `d` decimal digits of `n`, the specification of `zfill (str n) d`.
abbrev pub fixed : ℕ → ℕ → Bytes
fixed zero n = []
fixed (suc d) n = fixed d (n / 10) ++ (b'0' + n % 10) ∷ []

replicate-snoc : (d c : ℕ) → replicate d c ++ c ∷ [] ≡ replicate (suc d) c
replicate-snoc zero c = refl
replicate-snoc (suc d) c = ap (λ (xs : Bytes). c ∷ xs) (replicate-snoc d c)

fixed-zero : (d : ℕ) → fixed d 0 ≡ replicate d b'0'
fixed-zero zero = refl
fixed-zero (suc d) = rw (fixed-zero d) (replicate-snoc d b'0')

pub length-fixed : (d n : ℕ) → length (fixed d n) ≡ d
length-fixed zero n = refl
length-fixed (suc d) n =
    omega
      (arith, length-append {0} (fixed d (n / 10)) ((b'0' + n % 10) ∷ []), length-fixed d (n / 10))

zfill-snoc : (s : Bytes) (c w : ℕ) → zfill (s ++ c ∷ []) (suc w) ≡ zfill s w ++ c ∷ []
unfolding zfill
zfill-snoc s c w =
    let e : suc w - length (s ++ c ∷ []) ≡ w - length s =
      omega (arith, length-append {0} s (c ∷ [])) in
    rw e (rw (append_assoc))

fixed-digit : (d n : ℕ) → n < 10 → replicate d b'0' ++ (b'0' + n) ∷ [] ≡ fixed (suc d) n
fixed-digit d n h =
    let q : n / 10 ≡ 0 = omega arith in let r : n % 10 ≡ n = omega arith in rw (q, r, fixed-zero d)

zfill-char : (c d : ℕ) → zfill (c ∷ []) (suc d) ≡ replicate d b'0' ++ c ∷ []
unfolding zfill
zfill-char c d = let e : suc d - 1 ≡ d = omega arith in rw e

str_from-small : (f n : ℕ) → n < 10 → str_from f n ≡ (b'0' + n) ∷ []
unfolding str_from
str_from-small zero n h = ground arith
str_from-small (suc f) n h = ground arith

str_from-large :
    (f n : ℕ) → 10 ≤ n → str_from (suc f) n ≡ str_from f (n / 10) ++ (b'0' + n % 10) ∷ []
unfolding str_from
str_from-large f n h = ground arith

zfill-small : (f n d : ℕ) → n < 10 → zfill (str_from f n) (suc d) ≡ fixed (suc d) n
zfill-small f n d h = rw (str_from-small f n h) (zfill-char (b'0' + n) d ∙ fixed-digit d n h)

zfill-str_from :
    (f n d : ℕ) → n ≤ f → n < 10 ^ suc d → zfill (str_from f n) (suc d) ≡ fixed (suc d) n
zfill-str_from zero n d h k = zfill-small zero n d (omega arith)
zfill-str_from (suc f) n zero h k = zfill-small (suc f) n zero (omega arith)
zfill-str_from (suc f) n (suc d) h k = elim (Bool-cases (ltb n 10)) [
  | inl small ↦ zfill-small (suc f) n (suc d) (ltb→lt n 10 small)
  | inr large ↦ rw (str_from-large f n (ground arith)) (
      zfill-snoc (str_from f (n / 10)) (b'0' + n % 10) (suc d)
      ∙ ap (λ (xs : Bytes). xs ++ (b'0' + n % 10) ∷ [])
          (zfill-str_from f (n / 10) d (omega arith) (omega (arith, pow-suc 10 (suc d)))))
]

-- A number below `10 ^ d` fills exactly `d` places with its last `d` digits.
pub zfill-str : (n d : ℕ) → 1 ≤ d → n < 10 ^ d → zfill (str n) d ≡ fixed d n
unfolding str
zfill-str n zero one h = absurd (omega arith)
zfill-str n (suc d) one h = zfill-str_from n n d (omega arith) h
