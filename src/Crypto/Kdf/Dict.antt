-- ===== src/Crypto/Kdf/Dict.antt =====
-- src/passman/core/crypto/kdf.py: the JSON form of the cost parameters.
use ash_password_manager.Common.{
  ℕ, ◌*◌, ◌≤◌, true, false, Option, none, some, ◌≡◌, inl, inr, sym, ap, ◌∙◌, Option-cases, arith,
}
use ash_password_manager.Common.Ints.{pos}
use ash_password_manager.Common.Json.{
  Json, integer, object, end, field, Try, value_error, ◌>>=◌, item, is_object, bind-eq-inr,
}
use ash_password_manager.Crypto.Kdf.{Argon2Params, make_params}

abbrev pub params_dict : Argon2Params → Json
params_dict p = object (
    field "time_cost" (integer (pos p.time_cost)) (
      field "memory_cost_kib" (integer (pos p.memory_cost_kib))
        (field "parallelism" (integer (pos p.parallelism)) end)))

-- A value of the type `int`. A negative one is outside every range that the constructor checks.
abbrev natural : Json → Try ℕ
natural (integer (pos n)) = inr n
natural j = inl value_error

abbrev made : Option Argon2Params → Try Argon2Params
made none = inl value_error
made (some p) = inr p

unfoldable pub params_from_dict : Json → Try Argon2Params
unfolding make_params
params_from_dict d = elim (is_object d) [
  | false ↦ inl value_error
  | true ↦ do
    time ← item "time_cost" d
    memory ← item "memory_cost_kib" d
    lanes ← item "parallelism" d
    t ← natural time
    m ← natural memory
    l ← natural lanes
    made (make_params t m l)
]

-- The limits of the work that a file may ask for.
pub record IsBounded (p : Argon2Params) : Type 0 where
  pub time_bounds : (1 ≤ p.time_cost) × (p.time_cost ≤ 16)
  pub lanes_bounds : (1 ≤ p.parallelism) × (p.parallelism ≤ 16)
  pub memory_bounds : (8 * p.parallelism ≤ p.memory_cost_kib) × (p.memory_cost_kib ≤ 512 * 1024)
  pub work_bound : p.time_cost * p.memory_cost_kib ≤ 4 * 1024 * 1024

pub make_params-IsBounded :
    (t m l : ℕ) {p : Argon2Params} → make_params t m l ≡ some p → IsBounded p
unfolding make_params
make_params-IsBounded t m l h = ground arith

made-IsBounded : (t m l : ℕ) {p : Argon2Params} → made (make_params t m l) ≡ inr p → IsBounded p
made-IsBounded t m l h = elim (Option-cases (make_params t m l)) [
  | inl e ↦ absurd (failed (sym (ap made e) ∙ h))
  | inr (q, e) ↦ make_params-IsBounded t m l (e ∙ same (sym (ap made e) ∙ h))
]
  where
    failed : {q : Argon2Params} → ◌≡◌ {A = Try Argon2Params} (inl value_error) (inr q) → ⊥
    failed h = cc h

    same :
        {q r : Argon2Params}
        → ◌≡◌ {A = Try Argon2Params} (inr q) (inr r)
        → ◌≡◌ {A = Option Argon2Params} (some q) (some r)
    same h = cc h

pub params_from_dict-params_dict :
    (p : Argon2Params) → IsBounded p → params_from_dict (params_dict p) ≡ inr p
unfolding params_from_dict
params_from_dict-params_dict p b = ground (arith)

pub params_from_dict-IsBounded :
    (d : Json) {p : Argon2Params} → params_from_dict d ≡ inr p → IsBounded p
unfolding params_from_dict
params_from_dict-IsBounded (object fs) h =
    let (time, e1, h1) = bind-eq-inr (item "time_cost" (object fs)) _ h in
    let (memory, e2, h2) = bind-eq-inr (item "memory_cost_kib" (object fs)) _ h1 in
    let (lanes, e3, h3) = bind-eq-inr (item "parallelism" (object fs)) _ h2 in
    let (t, e4, h4) = bind-eq-inr (natural time) _ h3 in
    let (m, e5, h5) = bind-eq-inr (natural memory) _ h4 in
    let (l, e6, h6) = bind-eq-inr (natural lanes) _ h5 in made-IsBounded t m l h6
params_from_dict-IsBounded other h = cc h
