-- ===== src/Recovery/Tests.antt =====
-- The gate at a concrete history, and the codes at concrete texts.
use ash_password_manager.Common.{
  ◌∷◌, [], true, false, List, Option, some, Bytes, inl, inr, ◌≡◌, ◌↔◌, refl,
}
use ash_password_manager.Recovery.{RecoveryCode, confirm}
use ash_password_manager.Common.Json.{Json, array, null, type_error}
use ash_password_manager.Common.Chars.{codes}
use ash_password_manager.Recovery.Codes.{
  code_dicts, serialize, deserialize, deserialize-serialize, IsScalar, deserialize-raises_iff,
}
use ash_password_manager.Recovery.Gate.{requests, confirms, gate_after, IsRequested, confirm_iff}

confirm_iff_example :
    ((confirm 19 (gate_after 10 (requests 12 ∷ confirms 5 ∷ []))).0 ≡ true)
    ↔ IsRequested 10 19 (requests 12 ∷ confirms 5 ∷ [])
confirm_iff_example = confirm_iff 10 19 (requests 12 ∷ confirms 5 ∷ [])

abbrev no_text : Json → Bytes
no_text j = b'0' ∷ []

abbrev two_codes : List RecoveryCode
two_codes =
    record { code = codes "a1"; used = false; label = [] }
    ∷ record { code = codes "b2"; used = true; label = codes "mail" }
    ∷ []

abbrev reads_codes : Bytes → Option Json
reads_codes s = some (array (code_dicts two_codes))

deserialize-serialize_example :
    deserialize no_text reads_codes (some (serialize no_text reads_codes two_codes)) ≡ inr two_codes
unfolding serialize
deserialize-serialize_example = deserialize-serialize no_text reads_codes two_codes refl (λ e. cc e)

abbrev all_null : Bytes → Option Json
all_null s = some null

deserialize-raises_iff_example :
    (deserialize no_text all_null (some (b'0' ∷ [])) ≡ inl type_error)
    ↔ ((j : Json) × (all_null (b'0' ∷ []) ≡ some j) × IsScalar j)
deserialize-raises_iff_example = deserialize-raises_iff no_text all_null (b'0' ∷ []) (λ e. cc e)
