-- ===== src/Auth/Strategy/Json/Causes.antt =====
-- src/passman/core/auth/strategy.py: what the reading of one field raises, and why.
use ash_password_manager.Common.{
  Option, none, some, List, [], ◌∷◌, Bytes, Bool, true, false, inl, inr, Bool-cases, same_bytes,
  ◌≡◌, ◌⊎◌, refl, sym, ap, ◌∙◌, String,
}
use ash_password_manager.Common.Json.{
  Json, Items, Fields, finite, infinite, nan, null, boolean, integer, real, text, array, object,
  nil, cons, Exception, key_error, value_error, type_error, attribute_error, overflow_error,
  untyped, Try, ◌>>=◌, get, get_or, typed_optional, typed_text, int_from, each, Raises, Raises-map,
  Raises-bind, get_or-object, get_or-Raises,
}
use ash_password_manager.Auth.Strategy.{StepAction}
use ash_password_manager.Common.Ints.{ℤ, int_of}
use ash_password_manager.Auth.Strategy.Json.{action_of, action_in, actions, action_name}

-- The exceptions that from_json names in its handler.
abbrev pub Caught : Exception → Type 0
Caught key_error = Unit
Caught value_error = Unit
Caught type_error = Unit
Caught _ = ⊥

-- What may stand in `value` and `field_hint`, and in `name`.
abbrev pub is_optional : Json → Bool
is_optional null = true
is_optional (text s) = true
is_optional _ = false

abbrev pub is_text_value : Json → Bool
is_text_value (text s) = true
is_text_value _ = false

abbrev pub Mistyped : (Json → Bool) → String → Fields → Type 0
Mistyped fits k fs = (j : Json) × (get k fs ≡ some j) × (fits j ≡ false)

abbrev pub IsInfinite : String → Fields → Type 0
IsInfinite k fs = get k fs ≡ some (real infinite)

-- A step whose timeout or number of retries is infinite.
abbrev pub HasInfinite : Json → Type 0
HasInfinite (object fs) = IsInfinite "timeout_ms" fs ⊎ IsInfinite "retries" fs
HasInfinite _ = ⊥

-- A step whose value or hint is neither null nor a text.
abbrev pub HasMistyped : Json → Type 0
HasMistyped (object fs) = Mistyped is_optional "value" fs ⊎ Mistyped is_optional "field_hint" fs
HasMistyped _ = ⊥

abbrev pub AnyItem : (Json → Type 0) → Items → Type 0
AnyItem P nil = ⊥
AnyItem P (cons j js) = P j ⊎ AnyItem P js

abbrev pub AnyIn : (Json → Type 0) → Json → Type 0
AnyIn P (array js) = AnyItem P js
AnyIn P _ = ⊥

-- One of the steps of a strategy.
abbrev pub AnyStep : (Json → Type 0) → Json → Type 0
AnyStep P (object fs) = (raw : Json) × (get "steps" fs ≡ some raw) × AnyIn P raw
AnyStep P _ = ⊥

abbrev pub HasMistypedName : Json → Type 0
HasMistypedName (object fs) = Mistyped is_text_value "name" fs
HasMistypedName _ = ⊥

-- What an exception says, if the two that no handler names have these causes.
abbrev pub Cause : Type 0 → Type 0 → Exception → Type 0
Cause over mistyped overflow_error = over
Cause over mistyped untyped = mistyped
Cause over mistyped e = Caught e

pub Cause-map : {A B C D : Type 0} → (A → C) → (B → D) → (e : Exception) → Cause A B e → Cause C D e
Cause-map f g key_error h = h
Cause-map f g value_error h = h
Cause-map f g type_error h = h
Cause-map f g attribute_error h = h
Cause-map f g overflow_error h = f h
Cause-map f g untyped h = g h

pub typed_optional-Raises : (j : Json) → Raises (Cause ⊥ (is_optional j ≡ false)) (typed_optional j)
typed_optional-Raises null = tt
typed_optional-Raises (text s) = tt
typed_optional-Raises (boolean b) = refl
typed_optional-Raises (integer n) = refl
typed_optional-Raises (real r) = refl
typed_optional-Raises (array js) = refl
typed_optional-Raises (object fs) = refl

pub typed_text-Raises : (j : Json) → Raises (Cause ⊥ (is_text_value j ≡ false)) (typed_text j)
typed_text-Raises (text s) = tt
typed_text-Raises null = refl
typed_text-Raises (boolean b) = refl
typed_text-Raises (integer n) = refl
typed_text-Raises (real r) = refl
typed_text-Raises (array js) = refl
typed_text-Raises (object fs) = refl

pub each-Raises : (over mistyped : Type 0) (j : Json) → Raises (Cause over mistyped) (each j)
each-Raises over mistyped (text s) = tt
each-Raises over mistyped null = tt
each-Raises over mistyped (boolean b) = tt
each-Raises over mistyped (integer n) = tt
each-Raises over mistyped (real r) = tt
each-Raises over mistyped (array js) = tt
each-Raises over mistyped (object fs) = tt

int_from-Raises : (j : Json) → Raises (Cause (j ≡ real infinite) ⊥) (int_from j)
int_from-Raises null = tt
int_from-Raises (boolean true) = tt
int_from-Raises (boolean false) = tt
int_from-Raises (integer n) = tt
int_from-Raises (real (finite n z)) = tt
int_from-Raises (real infinite) = refl
int_from-Raises (real nan) = tt
int_from-Raises (text s) = by_value (int_of s)
  where
    by_value :
        (o : Option ℤ)
        → Raises {A = ℤ}
            (Cause (text s ≡ real infinite) ⊥)
            (elim o [ none ↦ inl value_error | some n ↦ inr n ])
    by_value none = tt
    by_value (some n) = tt
int_from-Raises (array js) = tt
int_from-Raises (object fs) = tt

action_in-Raises :
    (P : Exception → Type 0) (s : Bytes) (as' : List StepAction)
    → P value_error
    → Raises P (action_in s as')
action_in-Raises P s [] h = h
action_in-Raises P s (a ∷ as') h = elim (Bool-cases (same_bytes s (action_name a))) [
  | inl found ↦ rw found tt
  | inr other ↦ rw other (action_in-Raises P s as' h)
]

pub action_of-Raises : (P : Exception → Type 0) (j : Json) → P value_error → Raises P (action_of j)
action_of-Raises P (text s) h = action_in-Raises P s actions h
action_of-Raises P null h = h
action_of-Raises P (boolean b) h = h
action_of-Raises P (integer n) h = h
action_of-Raises P (real r) h = h
action_of-Raises P (array js) h = h
action_of-Raises P (object fs) h = h

integer-ne-real : (n : ℤ) → ◌≡◌ {A = Json} (integer n) (real infinite) → ⊥
integer-ne-real n e = cc e

true-ne-false : ◌≡◌ {A = Bool} true false → ⊥
true-ne-false h = cc h

pub items_same : {xs ys : Items} → ◌≡◌ {A = Try Items} (inr xs) (inr ys) → xs ≡ ys
items_same e = cc e

-- A field read with a default.
module _ (fs : Fields) (k : String) where
  pub int_field :
      (n : ℤ) {B : Type 0} (over mistyped : Type 0) (f : ℤ → Try B)
      → (IsInfinite k fs → over)
      → ((i : ℤ) → Raises (Cause over mistyped) (f i))
      → Raises
          (Cause over mistyped)
          (get_or k (integer n) (object fs) >>= λ raw. int_from raw >>= f)
  int_field n over mistyped f why rest =
      Raises-bind (Cause over mistyped) (get_or k (integer n) (object fs)) _
        (get_or-Raises (Cause over mistyped) k (integer n) fs)
        λ raw given.
          Raises-bind (Cause over mistyped) (int_from raw) f
            (Raises-map (Cause (raw ≡ real infinite) ⊥) (Cause over mistyped) (int_from raw)
              (Cause-map (λ e. why (infinite_there raw given e)) (λ h. absurd h))
              (int_from-Raises raw))
            (λ i e. rest i)
    where
      infinite_there :
          (raw : Json)
          → get_or k (integer n) (object fs) ≡ inr raw
          → raw ≡ real infinite
          → IsInfinite k fs
      infinite_there raw given e = elim (get_or-object k (integer n) raw fs given) [
        | inl there ↦ there ∙ ap some e
        | inr same ↦ absurd (integer-ne-real n (sym same ∙ e))
      ]

  pub text_field :
      {A B : Type 0} (other : Json) (fits : Json → Bool) (typed : Json → Try A)
      (over mistyped : Type 0) (f : A → Try B)
      → fits other ≡ true
      → ((j : Json) → Raises (Cause ⊥ (fits j ≡ false)) (typed j))
      → (Mistyped fits k fs → mistyped)
      → ((a : A) → Raises (Cause over mistyped) (f a))
      → Raises (Cause over mistyped) (get_or k other (object fs) >>= λ raw. typed raw >>= f)
  text_field other fits typed over mistyped f fine tells why rest =
      Raises-bind (Cause over mistyped) (get_or k other (object fs)) _
        (get_or-Raises (Cause over mistyped) k other fs)
        λ raw given.
          Raises-bind (Cause over mistyped) (typed raw) f
            (Raises-map (Cause ⊥ (fits raw ≡ false)) (Cause over mistyped) (typed raw)
              (Cause-map (λ h. absurd h) (λ e. why (wrong_there raw given e))) (tells raw))
            (λ a e. rest a)
    where
      wrong_there :
          (raw : Json)
          → get_or k other (object fs) ≡ inr raw
          → fits raw ≡ false
          → Mistyped fits k fs
      wrong_there raw given e = elim (get_or-object k other raw fs given) [
        | inl there ↦ (raw, there, e)
        | inr same ↦ absurd (true-ne-false (sym fine ∙ (ap fits (sym same) ∙ e)))
      ]
