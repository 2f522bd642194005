-- ===== src/Auth/Strategy/Json/Errors.antt =====
-- src/passman/core/auth/strategy.py: what reading a damaged strategy raises.
use ash_password_manager.Common.{
  Option, none, some, [], ◌∷◌, Bytes, true, inl, inr, Bool-cases, ◌≡◌, ◌⊎◌, refl, sym, subst,
  if◌then◌else◌,
}
use ash_password_manager.Common.Json.{
  Json, Items, Fields, is_empty_text, null, boolean, integer, real, text, array, object, nil, cons,
  end, field, Exception, key_error, value_error, type_error, attribute_error, overflow_error,
  untyped, Try, get, item, get_or, typed_optional, typed_text, each, chars, keys, Raises,
  Raises-map, Raises-bind, get_or-Raises, item-Raises,
}
use ash_password_manager.Auth.Strategy.{AuthStrategy, default_strategy}
use ash_password_manager.Common.Chars.{codes}
use ash_password_manager.Common.Ints.{pos}
use ash_password_manager.Auth.Strategy.Json.{
  action_of, step_from_dict, steps_of, strategy_of, or_default, read, from_json,
}
use ash_password_manager.Auth.Strategy.Json.Causes.{
  Caught, is_optional, is_text_value, HasInfinite, HasMistyped, AnyItem, AnyIn, AnyStep,
  HasMistypedName, Cause, Cause-map, typed_optional-Raises, typed_text-Raises, each-Raises,
  action_of-Raises, items_same, int_field, text_field,
}

step-Raises : (d : Json) → Raises (Cause (HasInfinite d) (HasMistyped d)) (step_from_dict d)
unfolding step_from_dict
step-Raises (object fs) =
    let over = HasInfinite (object fs) in
    let mistyped = HasMistyped (object fs) in
    let P : Exception → Type 0 = Cause over mistyped in
    Raises-bind P (item "action" (object fs)) _ (item-Raises P "action" (object fs) tt tt) λ name e.
      Raises-bind P (action_of name) _ (action_of-Raises P name tt) λ action e.
        text_field fs "value" null is_optional typed_optional over mistyped _ refl
          typed_optional-Raises inl
          λ value.
            text_field fs "field_hint" null is_optional typed_optional over mistyped _ refl
              typed_optional-Raises inr
              λ hint. int_field fs "timeout_ms" (pos 4000) over mistyped _ inl λ timeout.
                int_field fs "retries" (pos 0) over mistyped _ inr λ retries.
                  Raises-bind P (get_or "enabled" (boolean true) (object fs)) _
                    (get_or-Raises P "enabled" (boolean true) fs) λ enabled e. tt
step-Raises null = tt
step-Raises (boolean b) = tt
step-Raises (integer n) = tt
step-Raises (real r) = tt
step-Raises (text s) = tt
step-Raises (array js) = tt

steps-Raises :
    (js : Items) → Raises (Cause (AnyItem HasInfinite js) (AnyItem HasMistyped js)) (steps_of js)
steps-Raises nil = tt
steps-Raises (cons j js) =
    let P : Exception → Type 0 =
      Cause (AnyItem HasInfinite (cons j js)) (AnyItem HasMistyped (cons j js)) in
    Raises-bind P (step_from_dict j) _
      (Raises-map (Cause (HasInfinite j) (HasMistyped j)) P (step_from_dict j) (Cause-map inl inl)
        (step-Raises j))
      λ s e.
        Raises-bind P (steps_of js) _
          (Raises-map (Cause (AnyItem HasInfinite js) (AnyItem HasMistyped js)) P (steps_of js)
            (Cause-map inr inr) (steps-Raises js))
          λ ss k. tt

-- The characters of a text and the keys of a dict are texts, which no step is.
no_char : (P : Json → Type 0) (s : Bytes) → ((t : Bytes) → P (text t) → ⊥) → AnyItem P (chars s) → ⊥
no_char P [] none_of h = h
no_char P (c ∷ cs) none_of (inl h) = none_of (c ∷ []) h
no_char P (c ∷ cs) none_of (inr h) = no_char P cs none_of h

no_key :
    (P : Json → Type 0) (fs : Fields) → ((t : Bytes) → P (text t) → ⊥) → AnyItem P (keys fs) → ⊥
no_key P end none_of h = h
no_key P (field k v fs) none_of (inl h) = none_of (codes k) h
no_key P (field k v fs) none_of (inr h) = no_key P fs none_of h

each_step :
    (P : Json → Type 0) (raw : Json) (js : Items)
    → ((t : Bytes) → P (text t) → ⊥)
    → each raw ≡ inr js
    → AnyItem P js
    → AnyIn P raw
each_step P (array xs) js none_of e h = subst (AnyItem P) (sym (items_same e)) h
each_step P (text s) js none_of e h =
    absurd (no_char P s none_of (subst (AnyItem P) (sym (items_same e)) h))
each_step P (object fs) js none_of e h =
    absurd (no_key P fs none_of (subst (AnyItem P) (sym (items_same e)) h))
each_step P null js none_of e h = absurd (cc e)
each_step P (boolean b) js none_of e h = absurd (cc e)
each_step P (integer n) js none_of e h = absurd (cc e)
each_step P (real r) js none_of e h = absurd (cc e)

strategy-Raises :
    (d : Json)
    → Raises
        (Cause (AnyStep HasInfinite d) (AnyStep HasMistyped d ⊎ HasMistypedName d))
        (strategy_of d)
unfolding strategy_of
strategy-Raises (object fs) =
    let over = AnyStep HasInfinite (object fs) in
    let mistyped = AnyStep HasMistyped (object fs) ⊎ HasMistypedName (object fs) in
    let P : Exception → Type 0 = Cause over mistyped in
    Raises-bind P (item "steps" (object fs)) _ (item-Raises P "steps" (object fs) tt tt)
      λ raw there. Raises-bind P (each raw) _ (each-Raises over mistyped raw) λ js listed.
        Raises-bind P (steps_of js) _
          (Raises-map (Cause (AnyItem HasInfinite js) (AnyItem HasMistyped js)) P (steps_of js)
            (Cause-map
              (λ h. (raw, item_there raw there, each_step HasInfinite raw js (λ t x. x) listed h))
              (λ h.
                inl (raw, item_there raw there, each_step HasMistyped raw js (λ t x. x) listed h)))
            (steps-Raises js))
          λ steps e.
            text_field fs "name" (text (codes "default")) is_text_value typed_text over mistyped _
              refl typed_text-Raises inr (λ name. tt)
  where
    item_there : (raw : Json) → item "steps" (object fs) ≡ inr raw → get "steps" fs ≡ some raw
    item_there raw h = by_value (get "steps" fs) refl h
      where
        by_value :
            (o : Option Json)
            → get "steps" fs ≡ o
            → ◌≡◌ {A = Try Json} (elim o [ none ↦ inl key_error | some v ↦ inr v ]) (inr raw)
            → get "steps" fs ≡ some raw
        by_value none e h = absurd (cc h)
        by_value (some v) e h = cc (e, h)
strategy-Raises null = tt
strategy-Raises (boolean b) = tt
strategy-Raises (integer n) = tt
strategy-Raises (real r) = tt
strategy-Raises (text s) = tt
strategy-Raises (array js) = tt

-- The JSON value that the stored text stands for, if it stands for one.
abbrev pub parsed : (Bytes → Option Json) → Option Bytes → Option Json
parsed loads none = none
parsed loads (some raw) = if is_empty_text raw then none else loads raw

-- What reading a value may come to. Nothing that the handler names gets out of it.
abbrev pub Explained : Option Json → Try AuthStrategy → Type 0
Explained none (inr s) = s ≡ default_strategy
Explained none (inl e) = ⊥
Explained (some d) (inr s) =
    (strategy_of d ≡ inr s)
    ⊎ ((s ≡ default_strategy) × ((e : Exception) × (strategy_of d ≡ inl e) × Caught e))
Explained (some d) (inl overflow_error) = AnyStep HasInfinite d
Explained (some d) (inl untyped) = AnyStep HasMistyped d ⊎ HasMistypedName d
Explained (some d) (inl e) = ⊥

or_default-Explained :
    (d : Json) (r : Try AuthStrategy)
    → strategy_of d ≡ r
    → Raises (Cause (AnyStep HasInfinite d) (AnyStep HasMistyped d ⊎ HasMistypedName d)) r
    → Explained (some d) (or_default r)
or_default-Explained d (inl key_error) e h = inr (refl, (key_error, e, tt))
or_default-Explained d (inl value_error) e h = inr (refl, (value_error, e, tt))
or_default-Explained d (inl type_error) e h = inr (refl, (type_error, e, tt))
or_default-Explained d (inl attribute_error) e h = absurd h
or_default-Explained d (inl overflow_error) e h = h
or_default-Explained d (inl untyped) e h = h
or_default-Explained d (inr s) e h = inl e

read-Explained : (o : Option Json) → Explained o (read o)
read-Explained none = refl
read-Explained (some d) = or_default-Explained d (strategy_of d) refl (strategy-Raises d)

-- Reading a stored text gives the default strategy if there is no text or it is no JSON. Otherwise it
-- gives the strategy of the JSON value, or the default one where the value has no strategy for a reason
-- that the handler names. Only two things come out otherwise: an OverflowError, and then the timeout or
-- the retries of a step are infinite; or a name, a value or a hint of another type than a text.
pub from_json-Explained :
    (loads : Bytes → Option Json) (raw : Option Bytes)
    → Explained (parsed loads raw) (from_json loads raw)
unfolding from_json
from_json-Explained loads none = refl
from_json-Explained loads (some raw) = elim (Bool-cases (is_empty_text raw)) [
  | inl empty ↦ rw empty refl
  | inr filled ↦ rw filled (read-Explained (loads raw))
]
