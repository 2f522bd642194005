-- ===== src/Generator/Random.antt =====
-- src/passman/core/generator/random_generator.py: random passwords. The random numbers are a
-- function of a counter of the draws. A negative length, which is refused as 0 is, is not
-- represented.
pub mod Shuffle
pub mod Tests
use ash_password_manager.Common.{
  ℕ, zero, suc, ◌+◌, ◌-◌, ◌<◌, Bool, true, false, not, ◌&&◌, ◌||◌, Option, none, some, List, [],
  ◌∷◌, ◌++◌, keep, elem, length, get_elem?, set, ltb, Bytes, if◌then◌else◌, ◌⊎◌, inl, inr,
}
use ash_password_manager.Common.Chars.{codes}

-- `secrets.randbelow`
pub record Csprng : Type 0 where
  pub below : ℕ → ℕ → ℕ
  pub bound : (draw n : ℕ) → 0 < n → below draw n < n

pub record RandomPasswordPolicy : Type 0 where
  pub len : ℕ
  pub use_lower : Bool
  pub use_upper : Bool
  pub use_digits : Bool
  pub use_symbols : Bool
  pub exclude_ambiguous : Bool
  pub symbols : Bytes

abbrev lower_case : Bytes
lower_case = codes "abcdefghijklmnopqrstuvwxyz"

abbrev upper_case : Bytes
upper_case = codes "ABCDEFGHIJKLMNOPQRSTUVWXYZ"

abbrev digits : Bytes
digits = codes "0123456789"

-- `not policy.exclude_ambiguous or c not in _AMBIGUOUS`
abbrev allowed : RandomPasswordPolicy → ℕ → Bool
allowed p c = not p.exclude_ambiguous || not (elem c (codes "Il1O0"))

-- `dict.fromkeys`: the first of each.
abbrev distinct : Bytes → Bytes → Bytes
distinct seen [] = []
distinct seen (c ∷ cs) =
    let rest = distinct (c ∷ seen) cs in
    let skipped = distinct seen cs in if elem c seen then skipped else c ∷ rest

abbrev chosen : Bool → Bytes → Bytes
chosen b chars = if b then chars else []

unfoldable pub alphabet : RandomPasswordPolicy → Bytes
alphabet p = distinct [] (
    keep (allowed p) (
      chosen p.use_lower lower_case
      ++ chosen p.use_upper upper_case
      ++ chosen p.use_digits digits
      ++ chosen p.use_symbols p.symbols))

abbrev one_class : Bool → Bytes → List Bytes
one_class b chars = if b then chars ∷ [] else []

abbrev pub usable_symbols : RandomPasswordPolicy → Bytes
usable_symbols p = keep (allowed p) (distinct [] p.symbols)

unfoldable pub classes : RandomPasswordPolicy → List Bytes
classes p =
    one_class p.use_lower (keep (allowed p) lower_case)
    ++ one_class p.use_upper (keep (allowed p) upper_case)
    ++ one_class p.use_digits (keep (allowed p) digits)
    ++ one_class p.use_symbols (usable_symbols p)

pub data PolicyError : Type 0 where
  no_class no_length no_symbol too_short : PolicyError

abbrev pub is_filled : Bytes → Bool
is_filled [] = false
is_filled (c ∷ cs) = true

-- The character at an index, which is below the length wherever one is drawn.
abbrev pub char_at : Bytes → ℕ → ℕ
char_at [] i = 0
char_at (c ∷ cs) zero = c
char_at (c ∷ cs) (suc i) = char_at cs i

abbrev pub exchanged : Bytes → ℕ → ℕ → Option ℕ → Option ℕ → Bytes
exchanged xs i j (some a) (some b) = set (set xs i b) j a
exchanged xs i j _ _ = xs

module _ (rng : Csprng) where
  -- `secrets.choice`
  abbrev pub choice : ℕ → Bytes → ℕ
  choice draw cs = char_at cs (rng.below draw (length cs))

  abbrev pub choices : ℕ → List Bytes → Bytes
  choices draw [] = []
  choices draw (cs ∷ css) = choice draw cs ∷ choices (suc draw) css

  abbrev pub repeated : ℕ → ℕ → Bytes → Bytes
  repeated draw zero cs = []
  repeated draw (suc n) cs = choice draw cs ∷ repeated (suc draw) n cs

  -- `for i in range(len(result) - 1, 0, -1)`
  abbrev pub shuffle_from : ℕ → ℕ → Bytes → Bytes
  shuffle_from zero draw xs = xs
  shuffle_from (suc i) draw xs =
      let j = rng.below draw (suc i + 1) in
      shuffle_from i (suc draw) (exchanged xs (suc i) j (get_elem? xs (suc i)) (get_elem? xs j))

  abbrev pub drawn : ℕ → List Bytes → Bytes → Bytes
  drawn len css cs = choices 0 css ++ repeated (length css) (len - length css) cs

  unfoldable pub generate_random_password : RandomPasswordPolicy → PolicyError ⊎ Bytes
  unfolding alphabet classes
  generate_random_password p =
      if not (is_filled (alphabet p))
      then inl no_class
      else if ltb p.len 1
      then inl no_length
      else if p.use_symbols && not (is_filled (usable_symbols p))
      then inl no_symbol
      else if ltb p.len (length (classes p))
      then inl too_short
      else (let result = drawn p.len (keep is_filled (classes p)) (alphabet p) in
          inr (shuffle_from (length result - 1) (length result) result))
