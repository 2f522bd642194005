-- ===== src/Common/Json.antt =====
-- The values that json.loads gives, and what Python's `[]`, `get`, `bool`, `int` and `str` do with
-- them. A dict has each key once. What `str` gives of a float, a list or a dict is a parameter.
use Prim.Native.Nat.{◌+◌}
use Prim.Native.String.{String}
use mathlib.Core.Path.{◌≡◌, refl}
use mathlib.Core.Logic.{◌≢◌, ◌⊎◌, inl, inr}
use mathlib.Core.Bool.{Bool, true, false, not}
use mathlib.Core.List.{[], ◌∷◌}
use mathlib.Core.Option.{Option, none, some}
use ash_password_manager.Common.Tests.{◌==◌, ◌=s=◌, if◌then◌else◌}
use ash_password_manager.Common.Texts.{Bytes}
use ash_password_manager.Common.Chars.{codes}
use ash_password_manager.Common.Ints.{ℤ, pos, negsuc, int_of}
use ash_password_manager.Common.Decimal.{str}

-- What the code reads of a float: its integer part, and whether it is zero.
pub data Real : Type 0 where
  finite : ℤ → Bool → Real
  infinite nan : Real

mutual
  pub data Json : Type 0 where
    null : Json
    boolean : Bool → Json
    integer : ℤ → Json
    real : Real → Json
    text : Bytes → Json
    array : Items → Json
    object : Fields → Json

  pub data Items : Type 0 where
    nil : Items
    cons : Json → Items → Items

  pub data Fields : Type 0 where
    end : Fields
    field : String → Json → Fields → Fields

-- `untyped` is no exception: the code goes on with a value of a type that its annotations exclude.
pub data Exception : Type 0 where
  key_error value_error type_error attribute_error overflow_error untyped : Exception

abbrev pub Try : Type 0 → Type 0
Try A = Exception ⊎ A

infixl 5 ◌>>=◌
abbrev pub ◌>>=◌ : {A B : Type 0} → Try A → (A → Try B) → Try B
inl e >>= f = inl e
inr a >>= f = f a

abbrev pub get : String → Fields → Option Json
get k end = none
get k (field j v fs) = let rest = get k fs in if j =s= k then some v else rest

-- `d[k]`
abbrev pub item : String → Json → Try Json
item k (object fs) = elim (get k fs) [ none ↦ inl key_error | some v ↦ inr v ]
item k j = inl type_error

-- `d.get(k, default)`
abbrev pub get_or : String → Json → Json → Try Json
get_or k other (object fs) = elim (get k fs) [ none ↦ inr other | some v ↦ inr v ]
get_or k other j = inl attribute_error

abbrev pub typed_text : Json → Try Bytes
typed_text (text s) = inr s
typed_text j = inl untyped

abbrev pub typed_optional : Json → Try (Option Bytes)
typed_optional null = inr none
typed_optional (text s) = inr (some s)
typed_optional j = inl untyped

abbrev pub optional_text : Option Bytes → Json
optional_text none = null
optional_text (some s) = text s

abbrev pub is_object : Json → Bool
is_object (object fs) = true
is_object j = false

abbrev pub is_empty_text : Bytes → Bool
is_empty_text [] = true
is_empty_text (c ∷ cs) = false

abbrev real_truth : Real → Bool
real_truth (finite n zero_valued) = not zero_valued
real_truth r = true

abbrev is_zero : ℤ → Bool
is_zero (pos n) = n == 0
is_zero (negsuc n) = false

-- `bool(j)`
abbrev pub truth : Json → Bool
truth null = false
truth (boolean b) = b
truth (integer n) = not (is_zero n)
truth (real r) = real_truth r
truth (text s) = not (is_empty_text s)
truth (array nil) = false
truth (array (cons j js)) = true
truth (object end) = false
truth (object (field k v fs)) = true

abbrev real_int : Real → Try ℤ
real_int (finite n zero_valued) = inr n
real_int infinite = inl overflow_error
real_int nan = inl value_error

-- `int(j)`
abbrev pub int_from : Json → Try ℤ
int_from (boolean true) = inr (pos 1)
int_from (boolean false) = inr (pos 0)
int_from (integer n) = inr n
int_from (real r) = real_int r
int_from (text s) = elim (int_of s) [ none ↦ inl value_error | some n ↦ inr n ]
int_from j = inl type_error

abbrev int_text : ℤ → Bytes
int_text (pos n) = str n
int_text (negsuc n) = b'-' ∷ str (n + 1)

-- `str(j)`
abbrev pub as_text : (Json → Bytes) → Json → Bytes
as_text repr null = codes "None"
as_text repr (boolean true) = codes "True"
as_text repr (boolean false) = codes "False"
as_text repr (integer n) = int_text n
as_text repr (text s) = s
as_text repr j = repr j

-- `for x in j`: a dict gives its keys, a text its characters.
abbrev pub chars : Bytes → Items
chars [] = nil
chars (c ∷ cs) = cons (text (c ∷ [])) (chars cs)

abbrev pub keys : Fields → Items
keys end = nil
keys (field k v fs) = cons (text (codes k)) (keys fs)

abbrev pub each : Json → Try Items
each (array xs) = inr xs
each (object fs) = inr (keys fs)
each (text s) = inr (chars s)
each j = inl type_error

-- A computation that succeeds has succeeded in its first step.
pub bind-eq-inr :
    {A B : Type 0} (m : Try A) (f : A → Try B) {b : B}
    → (m >>= f) ≡ inr b
    → (a : A) × (m ≡ inr a) × (f a ≡ inr b)
bind-eq-inr {A} {B} (inl e) f h = absurd (inl-ne-inr e _ h)
  where
    inl-ne-inr : (e : Exception) (b : B) → ◌≡◌ {A = Try B} (inl e) (inr b) → ⊥
    inl-ne-inr e b h = cc h
bind-eq-inr (inr a) f h = (a, refl, h)

-- Whatever it raises has a cause.
abbrev pub Raises : {A : Type 0} → (Exception → Type 0) → Try A → Type 0
Raises P (inl e) = P e
Raises P (inr a) = Unit

pub Raises-map :
    {A : Type 0} (P Q : Exception → Type 0) (m : Try A)
    → ((e : Exception) → P e → Q e)
    → Raises P m
    → Raises Q m
Raises-map P Q (inl e) f h = f e h
Raises-map P Q (inr a) f h = tt

pub Raises-bind :
    {A B : Type 0} (P : Exception → Type 0) (m : Try A) (f : A → Try B)
    → Raises P m
    → ((a : A) → m ≡ inr a → Raises P (f a))
    → Raises P (m >>= f)
Raises-bind P (inl e) f h k = h
Raises-bind P (inr a) f h k = k a refl

-- `d.get(k, default)` of a dict gives the value there or the default.
pub get_or-object :
    (k : String) (other j : Json) (fs : Fields)
    → get_or k other (object fs) ≡ inr j
    → (get k fs ≡ some j) ⊎ (j ≡ other)
get_or-object k other j fs h = by_value (get k fs) refl h
  where
    by_value :
        (o : Option Json)
        → get k fs ≡ o
        → ◌≡◌ {A = Try Json} (elim o [ none ↦ inr other | some v ↦ inr v ]) (inr j)
        → (get k fs ≡ some j) ⊎ (j ≡ other)
    by_value none e h = inr (cc h)
    by_value (some v) e h = inl (cc (e, h))

pub get_or-Raises :
    (P : Exception → Type 0) (k : String) (other : Json) (fs : Fields)
    → Raises P (get_or k other (object fs))
get_or-Raises P k other fs = by_value (get k fs)
  where
    by_value :
        (o : Option Json) → Raises {A = Json} P (elim o [ none ↦ inr other | some v ↦ inr v ])
    by_value none = tt
    by_value (some v) = tt

pub item-Raises :
    (P : Exception → Type 0) (k : String) (d : Json)
    → P key_error
    → P type_error
    → Raises P (item k d)
item-Raises P k (object fs) missing other = by_value (get k fs)
  where
    by_value :
        (o : Option Json) → Raises {A = Json} P (elim o [ none ↦ inl key_error | some v ↦ inr v ])
    by_value none = missing
    by_value (some v) = tt
item-Raises P k null missing other = other
item-Raises P k (boolean b) missing other = other
item-Raises P k (integer n) missing other = other
item-Raises P k (real r) missing other = other
item-Raises P k (text s) missing other = other
item-Raises P k (array js) missing other = other

pub is_empty_text-named : (s : Bytes) → s ≢ [] → is_empty_text s ≡ false
is_empty_text-named [] h = absurd (h refl)
is_empty_text-named (c ∷ s) h = refl
