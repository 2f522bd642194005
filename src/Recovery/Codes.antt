-- ===== src/Recovery/Codes.antt =====
-- src/passman/core/recovery/codes.py: the text in which the vault keeps the recovery codes. json.dumps
-- and json.loads are parameters. A text field that holds another JSON type is outside the model.
use ash_password_manager.Common.{
  false, Option, none, some, List, [], ◌∷◌, Bytes, ◌≡◌, ◌≢◌, ◌↔◌, refl, sym, ap, ◌∙◌, inl, inr,
}
use ash_password_manager.Common.Json.{
  Json, Items, null, boolean, integer, real, text, array, object, nil, cons, end, field, key_error,
  type_error, value_error, attribute_error, overflow_error, untyped, Try, ◌>>=◌, item, get_or,
  truth, each, chars, keys, typed_text,
}
use ash_password_manager.Recovery.{RecoveryCode}

unfoldable pub code_dict : RecoveryCode → Json
code_dict c =
    object (
      field "code" (text c.code) (field "used" (boolean c.used) (field "label" (text c.label) end)))

abbrev pub code_dicts : List RecoveryCode → Items
unfolding code_dict
code_dicts [] = nil
code_dicts (c ∷ cs) = cons (code_dict c) (code_dicts cs)

unfoldable pub code_from : Json → Try RecoveryCode
code_from j = do
  raw_code ← item "code" j
  code ← typed_text raw_code
  used ← get_or "used" (boolean false) j
  raw_label ← get_or "label" (text []) j
  label ← typed_text raw_label
  inr (record { code = code; used = truth used; label = label })

-- One turn of the loop: a KeyError or a TypeError leaves the item out.
abbrev pub kept_code : Try RecoveryCode → Try (List RecoveryCode) → Try (List RecoveryCode)
kept_code (inr c) rest = rest >>= λ cs. inr (c ∷ cs)
kept_code (inl key_error) rest = rest
kept_code (inl type_error) rest = rest
kept_code (inl e) rest = inl e

abbrev pub codes_from : Items → Try (List RecoveryCode)
unfolding code_from
codes_from nil = inr []
codes_from (cons j js) = kept_code (code_from j) (codes_from js)

module _ (dumps : Json → Bytes) (loads : Bytes → Option Json) where
  unfoldable pub serialize : List RecoveryCode → Bytes
  unfolding code_dicts
  serialize cs = dumps (array (code_dicts cs))

  abbrev pub parsed_codes : Option Json → Try (List RecoveryCode)
  unfolding codes_from
  parsed_codes none = inr []
  parsed_codes (some j) = each j >>= codes_from

  unfoldable pub deserialize : Option Bytes → Try (List RecoveryCode)
  unfolding parsed_codes
  deserialize none = inr []
  deserialize (some []) = inr []
  deserialize (some (c ∷ cs)) = parsed_codes (loads (c ∷ cs))

codes_from-code_dicts : (cs : List RecoveryCode) → codes_from (code_dicts cs) ≡ inr cs
unfolding codes_from code_dicts code_from code_dict
codes_from-code_dicts [] = refl
codes_from-code_dicts (c ∷ cs) = ap (λ r. r >>= λ ds. inr (c ∷ ds)) (codes_from-code_dicts cs)

module _ (dumps : Json → Bytes) (loads : Bytes → Option Json) where
  deserialize-text :
      (s : Bytes) → s ≢ [] → deserialize dumps loads (some s) ≡ parsed_codes dumps loads (loads s)
  unfolding deserialize
  deserialize-text [] h = absurd (h refl)
  deserialize-text (c ∷ s) h = refl

  -- If json.loads reads the text that json.dumps writes for the codes, and that text is not empty,
  -- reading it gives the codes, in their order, with their marks and labels.
  pub deserialize-serialize :
      (cs : List RecoveryCode)
      → loads (serialize dumps loads cs) ≡ some (array (code_dicts cs))
      → serialize dumps loads cs ≢ []
      → deserialize dumps loads (some (serialize dumps loads cs)) ≡ inr cs
  unfolding parsed_codes
  deserialize-serialize cs reads filled =
      deserialize-text (serialize dumps loads cs) filled
      ∙ (ap (parsed_codes dumps loads) reads ∙ codes_from-code_dicts cs)

-- What `for item in j` refuses.
abbrev pub IsScalar : Json → Type 0
IsScalar (array js) = ⊥
IsScalar (object fs) = ⊥
IsScalar (text s) = ⊥
IsScalar j = Unit

IsTypeError : {A : Type 0} → Try A → Type 0
IsTypeError {A} m = ◌≡◌ {A = Try A} m (inl type_error)

kept_code-IsTypeError :
    (r : Try RecoveryCode) (rest : Try (List RecoveryCode))
    → IsTypeError (kept_code r rest)
    → IsTypeError rest
unfolding IsTypeError
kept_code-IsTypeError (inr c) (inl e) h = cc h
kept_code-IsTypeError (inr c) (inr cs) h = absurd (cc h)
kept_code-IsTypeError (inl key_error) rest h = h
kept_code-IsTypeError (inl type_error) rest h = h
kept_code-IsTypeError (inl value_error) rest h = absurd (cc h)
kept_code-IsTypeError (inl attribute_error) rest h = absurd (cc h)
kept_code-IsTypeError (inl overflow_error) rest h = absurd (cc h)
kept_code-IsTypeError (inl untyped) rest h = absurd (cc h)

codes_from-caught : (js : Items) → IsTypeError (codes_from js) → ⊥
unfolding codes_from IsTypeError
codes_from-caught nil h = cc h
codes_from-caught (cons j js) h =
    codes_from-caught js (kept_code-IsTypeError (code_from j) (codes_from js) h)

module _ (dumps : Json → Bytes) (loads : Bytes → Option Json) where
  parsed_codes-IsScalar : (j : Json) → IsTypeError (parsed_codes dumps loads (some j)) → IsScalar j
  unfolding parsed_codes IsTypeError
  parsed_codes-IsScalar null h = tt
  parsed_codes-IsScalar (boolean b) h = tt
  parsed_codes-IsScalar (integer n) h = tt
  parsed_codes-IsScalar (real r) h = tt
  parsed_codes-IsScalar (text s) h = codes_from-caught (chars s) h
  parsed_codes-IsScalar (array js) h = codes_from-caught js h
  parsed_codes-IsScalar (object fs) h = codes_from-caught (keys fs) h

  scalar_raises : (j : Json) → IsScalar j → IsTypeError (parsed_codes dumps loads (some j))
  unfolding parsed_codes IsTypeError
  scalar_raises null h = refl
  scalar_raises (boolean b) h = refl
  scalar_raises (integer n) h = refl
  scalar_raises (real r) h = refl
  scalar_raises (text s) h = absurd h
  scalar_raises (array js) h = absurd h
  scalar_raises (object fs) h = absurd h

  none_settles : parsed_codes dumps loads none ≡ inl type_error → ⊥
  unfolding parsed_codes
  none_settles e = cc e

  -- Reading a text that is not empty lets a TypeError out exactly if the text is the JSON of a number, a
  -- truth value or null.
  pub deserialize-raises_iff :
      (s : Bytes)
      → s ≢ []
      → (deserialize dumps loads (some s) ≡ inl type_error)
        ↔ ((j : Json) × (loads s ≡ some j) × IsScalar j)
  unfolding IsTypeError
  deserialize-raises_iff s h =
      let read = deserialize-text dumps loads s h in
      (
        λ e. by_text (loads s) refl (sym read ∙ e),
        λ (j, given, scalar). read ∙ (ap (parsed_codes dumps loads) given ∙ scalar_raises j scalar),
      )
    where
      by_text :
          (o : Option Json)
          → loads s ≡ o
          → parsed_codes dumps loads o ≡ inl type_error
          → (j : Json) × (loads s ≡ some j) × IsScalar j
      by_text none given e = absurd (none_settles e)
      by_text (some j) given e = (j, given, parsed_codes-IsScalar j e)
