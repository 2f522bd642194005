-- ===== src/Generator/Random/Tests.antt =====
-- A short password of two classes, at concrete inputs.
use ash_password_manager.Common.{true, false, [], Bytes, keep, length, inr, ◌≡◌, refl, arith}
use ash_password_manager.Generator.Random.{
  Csprng, RandomPasswordPolicy, alphabet, classes, is_filled, generate_random_password,
}
use ash_password_manager.Generator.Random.Shuffle.{Covers, generate_random_password-Covers}

-- Always the first.
abbrev rng : Csprng
rng = record { below = λ draw n. 0; bound = λ draw n h. h }

abbrev policy : RandomPasswordPolicy
policy = record {
  len = 3;
  use_lower = true;
  use_upper = false;
  use_digits = true;
  use_symbols = false;
  exclude_ambiguous = true;
  symbols = [];
}

generate_random_password-Covers_example :
    (password : Bytes) × (generate_random_password rng policy ≡ inr password)
    × (length password ≡ 3)
    × Covers rng (keep is_filled (classes policy)) password
unfolding alphabet classes
generate_random_password-Covers_example =
    generate_random_password-Covers rng policy (refl, omega arith, refl, omega arith)
