-- ===== src/Crypto/Keyslots/Dict/Tests.antt =====
-- The file of a password slot, at concrete inputs.
use ash_password_manager.Common.{[], Bytes, replicate, ◌≡◌, refl, inl, inr, arith}
use ash_password_manager.Common.Chars.{codes}
use ash_password_manager.Common.Json.{Json, text, object, field, end, key_error}
use ash_password_manager.Crypto.Kdf.{Argon2Params}
use ash_password_manager.Crypto.Kdf.Dict.{IsBounded}
use ash_password_manager.Crypto.Keyslots.{KeySlot, password_kind}
use ash_password_manager.Crypto.Keyslots.Dict.{to_dict, from_dict, with_password, bare_slot}
use ash_password_manager.Crypto.Keyslots.Dict.Survival.{
  IsSized, IsBinary, IsAccepted, by_password, from_dict-to_dict, from_dict-IsAccepted,
}

abbrev no_text : Json → Bytes
no_text j = []

abbrev cheap : Argon2Params
cheap = record { time_cost = 1; memory_cost_kib = 64; parallelism = 1 }

abbrev some_slot : KeySlot
some_slot =
    with_password
      (bare_slot password_kind (codes "password") (codes "v1") (replicate 16 200)
        (record { nonce = replicate 12 1; ciphertext = replicate 32 255; tag = replicate 16 0 })
        (codes "2026-01-01T00:00:00Z") (codes "Master password"))
      cheap

cheap-IsBounded : IsBounded cheap
cheap-IsBounded = record {
  time_bounds = (omega arith, omega arith);
  lanes_bounds = (omega arith, omega arith);
  memory_bounds = (omega arith, omega arith);
  work_bound = omega arith;
}

some_slot-IsSized : IsSized some_slot
some_slot-IsSized = record {
  slot_named = λ e. cc e;
  vault_named = λ e. cc e;
  salt_length = (omega arith, omega arith);
  nonce_length = refl;
  tag_length = refl;
  ciphertext_length = refl;
}

some_slot-IsBinary : IsBinary some_slot.salt some_slot.box
some_slot-IsBinary = record {
  salt_bytes = omega arith;
  nonce_bytes = omega arith;
  tag_bytes = omega arith;
  ciphertext_bytes = omega arith;
}

from_dict-to_dict_example : from_dict no_text (to_dict some_slot) ≡ inr some_slot
from_dict-to_dict_example =
    from_dict-to_dict no_text some_slot
      (by_password some_slot cheap some_slot-IsSized cheap-IsBounded) some_slot-IsBinary

from_dict-IsAccepted_example : IsAccepted some_slot
from_dict-IsAccepted_example = from_dict-IsAccepted no_text (to_dict some_slot) (
    from_dict-to_dict no_text some_slot
      (by_password some_slot cheap some_slot-IsSized cheap-IsBounded) some_slot-IsBinary)

no_version : from_dict no_text (object (field "kind" (text (codes "password")) end)) ≡ inl key_error
unfolding from_dict
no_version = refl
