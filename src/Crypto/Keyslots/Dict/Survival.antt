-- ===== src/Crypto/Keyslots/Dict/Survival.antt =====
-- src/passman/core/crypto/keyslots.py: a key slot survives its file, and a file that is read holds a
-- key slot of the right dimensions.
use ash_password_manager.Common.{
  ◌≤◌, Bool, true, false, not, ◌||◌, List, [], ◌∷◌, Bytes, same_bytes, All, length, ◌≡◌, ◌≢◌, refl,
  subst, Bool-cases, arith, inl, inr,
}
use ash_password_manager.Common.Base64.{b64decode-b64encode, IsByte}
use ash_password_manager.Common.Json.{
  Json, Try, item, get_or, is_empty_text, bind-eq-inr, is_empty_text-named, each, truth, as_text,
  is_object,
}
use ash_password_manager.Crypto.Aead.{SealedBox}
use ash_password_manager.Crypto.Binding.{
  BindingInput, machine_id, uid, username, root_filesystem_uuid,
}
use ash_password_manager.Crypto.Kdf.{Argon2Params, default_params}
use ash_password_manager.Crypto.Kdf.Dict.{
  IsBounded, params_from_dict-params_dict, params_from_dict-IsBounded,
}
use ash_password_manager.Crypto.Keyslots.{KeySlot, SlotKind, password_kind, device_kind}
use ash_password_manager.Crypto.Keyslots.Dict.{
  to_dict, from_dict, with_password, with_device, is_sized, input_texts, inputs_of, require, unb64,
  kind_of, sealed_of, credential_of, bare_slot, params_of, known_version,
}

-- The identity and the dimensions of a slot.
pub record IsSized (slot : KeySlot) : Type 0 where
  pub slot_named : slot.slot_id ≢ []
  pub vault_named : slot.vault_id ≢ []
  pub salt_length : (16 ≤ length slot.salt) × (length slot.salt ≤ 64)
  pub nonce_length : length slot.box.nonce ≡ 12
  pub tag_length : length slot.box.tag ≡ 16
  pub ciphertext_length : length slot.box.ciphertext ≡ 32

-- The parts that are written in base64 are bytes.
pub record IsBinary (salt : Bytes) (box : SealedBox) : Type 0 where
  pub salt_bytes : All IsByte salt
  pub nonce_bytes : All IsByte box.nonce
  pub tag_bytes : All IsByte box.tag
  pub ciphertext_bytes : All IsByte box.ciphertext

inputs_of-input_texts : (is : List BindingInput) → inputs_of (input_texts is) ≡ inr is
unfolding same_bytes
inputs_of-input_texts [] = refl
inputs_of-input_texts (machine_id ∷ is) = rw (inputs_of-input_texts is) refl
inputs_of-input_texts (uid ∷ is) = rw (inputs_of-input_texts is) refl
inputs_of-input_texts (username ∷ is) = rw (inputs_of-input_texts is) refl
inputs_of-input_texts (root_filesystem_uuid ∷ is) = rw (inputs_of-input_texts is) refl

is_sized-IsSized : (slot : KeySlot) → IsSized slot → is_sized slot.salt slot.box ≡ true
is_sized-IsSized slot s = ground arith

module _ (repr : Json → Bytes) (slot : KeySlot) (sized : IsSized slot)
    (binary : IsBinary slot.salt slot.box) where
  password_survives :
      (p : Argon2Params)
      → IsBounded p
      → from_dict repr (to_dict (with_password slot p)) ≡ inr (with_password slot p)
  unfolding from_dict to_dict same_bytes
  password_survives p b =
      rw
        (
          b64decode-b64encode slot.box.nonce binary.nonce_bytes,
          b64decode-b64encode slot.box.ciphertext binary.ciphertext_bytes,
          b64decode-b64encode slot.box.tag binary.tag_bytes,
          b64decode-b64encode slot.salt binary.salt_bytes,
          is_empty_text-named slot.vault_id sized.vault_named,
          is_empty_text-named slot.slot_id sized.slot_named,
          is_sized-IsSized slot sized,
          params_from_dict-params_dict p b,
        )
        refl

  device_survives :
      (id : Bytes) (inputs : List BindingInput)
      → from_dict repr (to_dict (with_device slot id inputs)) ≡ inr (with_device slot id inputs)
  unfolding from_dict to_dict same_bytes
  device_survives id inputs =
      rw
        (
          b64decode-b64encode slot.box.nonce binary.nonce_bytes,
          b64decode-b64encode slot.box.ciphertext binary.ciphertext_bytes,
          b64decode-b64encode slot.box.tag binary.tag_bytes,
          b64decode-b64encode slot.salt binary.salt_bytes,
          is_empty_text-named slot.vault_id sized.vault_named,
          is_empty_text-named slot.slot_id sized.slot_named,
          is_sized-IsSized slot sized,
          inputs_of-input_texts inputs,
        )
        refl

-- A slot that a file gave: its dimensions are right, and so is what it holds for its kind.
pub data IsAccepted : KeySlot → Type 0 where
  by_password :
      (slot : KeySlot) (p : Argon2Params)
      → IsSized slot
      → IsBounded p
      → IsAccepted (with_password slot p)
  by_device :
      (slot : KeySlot) (id : Bytes) (inputs : List BindingInput)
      → IsSized slot
      → IsAccepted (with_device slot id inputs)

required : (b : Bool) → require b ≡ inr tt → b ≡ true
required true h = refl
required false h = cc h

default_params-IsBounded : IsBounded default_params
default_params-IsBounded = record {
  time_bounds = (omega arith, omega arith);
  lanes_bounds = (omega arith, omega arith);
  memory_bounds = (omega arith, omega arith);
  work_bound = omega arith;
}

same_right : {A : Type 0} {a b : A} → ◌≡◌ {A = Try A} (inr a) (inr b) → a ≡ b
same_right h = cc h

both_named : (s t : Bytes) → not (is_empty_text s || is_empty_text t) ≡ true → (s ≢ []) × (t ≢ [])
both_named [] t h = (λ e. cc h, λ e. cc h)
both_named (c ∷ s) [] h = (λ e. cc e, λ e. cc h)
both_named (c ∷ s) (d ∷ t) h = (λ e. cc e, λ e. cc e)

IsSized-is_sized :
    (slot : KeySlot)
    → not (is_empty_text slot.vault_id || is_empty_text slot.slot_id) ≡ true
    → is_sized slot.salt slot.box ≡ true
    → IsSized slot
IsSized-is_sized slot named sized = record {
  slot_named = (both_named slot.vault_id slot.slot_id named).1;
  vault_named = (both_named slot.vault_id slot.slot_id named).0;
  salt_length = ground arith;
  nonce_length = ground arith;
  tag_length = ground arith;
  ciphertext_length = ground arith;
}

params_of-IsBounded : (raw : Json) {p : Argon2Params} → params_of raw ≡ inr p → IsBounded p
params_of-IsBounded raw h = elim (Bool-cases (truth raw)) [
  | inl given ↦ params_from_dict-IsBounded raw (rw given at h)
  | inr absent ↦ subst IsBounded (same_right (rw absent at h)) default_params-IsBounded
]

module _ (repr : Json → Bytes) where
  credential_of-IsAccepted :
      (d : Json) (base : KeySlot) (kind : SlotKind) {slot : KeySlot}
      → IsSized base
      → credential_of repr d base kind ≡ inr slot
      → IsAccepted slot
  credential_of-IsAccepted d base password_kind sized h =
      let (raw, e1, h1) = bind-eq-inr (get_or "argon2" _ d) _ h in
      let (p, e2, h2) = bind-eq-inr (params_of raw) _ h1 in
      subst IsAccepted (same_right h2) (by_password base p sized (params_of-IsBounded raw e2))
  credential_of-IsAccepted d base device_kind sized h =
      let (id, e1, h1) = bind-eq-inr (item "device_id" d) _ h in
      let (raw, e2, h2) = bind-eq-inr (get_or "binding_inputs" _ d) _ h1 in
      let (js, e3, h3) = bind-eq-inr (each raw) _ h2 in
      let (inputs, e4, h4) = bind-eq-inr (inputs_of js) _ h3 in
      subst IsAccepted (same_right h4) (by_device base (as_text repr id) inputs sized)

  sealed_of-IsAccepted :
      (d : Json) (kind : SlotKind) (salt : Bytes) (box : SealedBox) {slot : KeySlot}
      → sealed_of repr d kind salt box ≡ inr slot
      → IsAccepted slot
  sealed_of-IsAccepted d kind salt box h =
      let (slot_id, e1, h1) = bind-eq-inr (item "slot_id" d) _ h in
      let (vault_id, e2, h2) = bind-eq-inr (item "vault_id" d) _ h1 in
      let (created, e3, h3) = bind-eq-inr (get_or "created_utc" _ d) _ h2 in
      let (label, e4, h4) = bind-eq-inr (get_or "label" _ d) _ h3 in
      let (_, e5, h5) =
        bind-eq-inr
          (require
            (not (is_empty_text (as_text repr vault_id) || is_empty_text (as_text repr slot_id))))
          _ h4 in
      let (_, e6, h6) = bind-eq-inr (require (is_sized salt box)) _ h5 in
      let base =
        bare_slot kind (as_text repr slot_id) (as_text repr vault_id) salt box
          (as_text repr created) (as_text repr label) in
      credential_of-IsAccepted d base kind (IsSized-is_sized base (required _ e5) (required _ e6))
        h6

  -- A file that is accepted gives a slot with a name, a vault, a salt of 16 to 64 bytes, a nonce of 12, a tag of 16
  -- and a sealed secret of 32; a password slot has a cost within the limits and nothing of a device, a device slot
  -- has its device and no cost.
  pub from_dict-IsAccepted :
      (d : Json) {slot : KeySlot} → from_dict repr d ≡ inr slot → IsAccepted slot
  unfolding from_dict
  from_dict-IsAccepted d h =
      let (_, e1, h1) = bind-eq-inr (require (is_object d)) _ h in
      let (version, e2, h2) = bind-eq-inr (item "version" d) _ h1 in
      let (_, e3, h3) = bind-eq-inr (known_version version) _ h2 in
      let (kind_text, e4, h4) = bind-eq-inr (item "kind" d) _ h3 in
      let (kind, e5, h5) = bind-eq-inr (kind_of kind_text) _ h4 in
      let (nonce_text, e6, h6) = bind-eq-inr (item "nonce" d) _ h5 in
      let (nonce, e7, h7) = bind-eq-inr (unb64 nonce_text) _ h6 in
      let (ciphertext_text, e8, h8) = bind-eq-inr (item "ciphertext" d) _ h7 in
      let (ciphertext, e9, h9) = bind-eq-inr (unb64 ciphertext_text) _ h8 in
      let (tag_text, e10, h10) = bind-eq-inr (item "tag" d) _ h9 in
      let (tag, e11, h11) = bind-eq-inr (unb64 tag_text) _ h10 in
      let (salt_text, e12, h12) = bind-eq-inr (item "salt" d) _ h11 in
      let (salt, e13, h13) = bind-eq-inr (unb64 salt_text) _ h12 in
      sealed_of-IsAccepted d kind salt _ h13

-- Reading back the file of a slot gives the same slot, where its dimensions and its cost are right and what is
-- written in base64 are bytes.
pub from_dict-to_dict :
    (repr : Json → Bytes) (slot : KeySlot)
    → IsAccepted slot
    → IsBinary slot.salt slot.box
    → from_dict repr (to_dict slot) ≡ inr slot
from_dict-to_dict repr _ (by_password slot p sized bounded) binary =
    password_survives repr slot sized binary p bounded
from_dict-to_dict repr _ (by_device slot id inputs sized) binary =
    device_survives repr slot sized binary id inputs
