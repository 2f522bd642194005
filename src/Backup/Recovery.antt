-- ===== src/Backup/Recovery.antt =====
-- src/passman/core/backup/archive.py: a backup can be verified and restored.
use ash_password_manager.Common.{
  ℕ, ◌*◌, ◌/◌, ◌%◌, ◌^◌, ◌≤◌, ◌<◌, true, false, not, ◌&&◌, Option, none, some, [], ◌∷◌, ◌++◌, Bytes,
  String, length, ltb, leb, All, ◌==◌, inl, inr, ◌≡◌, refl, sym, ap, ◌∙◌, subst, Bool-cases,
  Option-cases, leb→le, le→leb, lt→ltb, arith,
}
use ash_password_manager.Common.Base64.{b64decode-b64encode, IsByte}
use ash_password_manager.Security.Memory.{SecretBytes, truthy, to_bytes}
use ash_password_manager.Crypto.Aead.{Gcm, SealedBox, seal, open_box, opened, open_box-seal}
use ash_password_manager.Crypto.Kdf.{Hashes, Argon2Params, derive_key_argon2id}
use ash_password_manager.Crypto.Kdf.Dict.{IsBounded, params_from_dict-params_dict}
use ash_password_manager.Backup.{
  backup_error, demand, members_of, Files, Formats, max_header_bytes, max_archive_bytes, is_nil,
  find, bind-eq-inr, demanded, same_right,
}
use ash_password_manager.Backup.Payload.{bundled_names, among, validate_payload, gather, pack}
use ash_password_manager.Backup.Envelope.{
  to_bytes4, from_bytes4, split_at, Stamp, header_dict, create_backup, decrypt_archive,
  verify_backup, restore_backup, backup_aad, is_box_sized, parse_header, decrypt_parts,
  decrypt_body,
}
use ash_password_manager.Backup.Payload.Kept.{Keeps-inr, validate_payload-Keeps, gather-find}

from_bytes4-to_bytes4 :
    (n : ℕ) → from_bytes4 (n / 2 ^ 24) (n / 2 ^ 16 % 256) (n / 2 ^ 8 % 256) (n % 256) ≡ n
from_bytes4-to_bytes4 n = omega arith

split_at-append : (xs ys : Bytes) → split_at (length xs) (xs ++ ys) ≡ some (xs, ys)
split_at-append [] ys = refl
split_at-append (x ∷ xs) ys = rw (split_at-append xs ys) refl

some_ne_none : {A : Type 0} {a : A} → ◌≡◌ {A = Option A} none (some a) → ⊥
some_ne_none h = cc h

same_some : {A : Type 0} {a b : A} → ◌≡◌ {A = Option A} (some a) (some b) → a ≡ b
same_some h = cc h

length-derive_key_argon2id :
    (hashes : Hashes) (password : SecretBytes) (salt : Bytes) (params : Argon2Params) {kek : Bytes}
    → derive_key_argon2id hashes password salt params ≡ some kek
    → length kek ≡ 32
unfolding derive_key_argon2id
length-derive_key_argon2id hashes password salt params h =
    elim (Bool-cases (ltb (length salt) 16)) [
      | inl short ↦ absurd (some_ne_none (rw short at h))
      | inr long ↦ elim (Option-cases (to_bytes password)) [
        | inl gone ↦ absurd (some_ne_none (rw gone at (rw long at h)))
        | inr (bytes, held) ↦
            subst (λ k. length k ≡ 32) (same_some (rw held at (rw long at h)))
              (hashes.argon2id_length bytes salt params)
      ]
    ]

is_32 : (n : ℕ) → n ≡ 32 → (n == 32) ≡ true
is_32 n h = ground arith

box_parts :
    (gcm : Gcm) (nonce key text aad : Bytes) (box : SealedBox)
    → seal gcm nonce key text aad ≡ some box
    → length key ≡ 32
    → (box.nonce ≡ nonce) × (length box.tag ≡ 16)
unfolding seal
box_parts gcm nonce key text aad box h k =
    let e = same_some (rw (is_32 (length key) k) at h) in
    (
      sym (ap (λ (b : SealedBox). b.nonce) e),
      ap (λ (b : SealedBox). length b.tag) (sym e) ∙ gcm.tag_length key nonce aad text,
    )

module _ (t : Formats) where
  module _ (file : String → Option Bytes) (passphrase : SecretBytes) (s : Stamp)
      (params : Argon2Params) (fs : Files) (kek : Bytes) (box : SealedBox)
      (gathered : gather t bundled_names file ≡ inr fs)
      (derived : derive_key_argon2id t.hashes passphrase s.salt params ≡ some kek)
      (sealed : seal t.gcm s.nonce kek (t.tar fs) (backup_aad true) ≡ some box)
      (reads_tar : t.untar (t.tar fs) ≡ some (members_of fs))
      (reads_json : t.loads (t.dumps (header_dict s params box)) ≡ some (header_dict s params box))
      (header_size : (0 < length (t.dumps (header_dict s params box)))
        × (length (t.dumps (header_dict s params box)) ≤ 64 * 1024))
      (same_length : length box.ciphertext ≡ length (t.tar fs)) (filled : 0 < length (t.tar fs))
      (salt_length : (16 ≤ length s.salt) × (length s.salt ≤ 64))
      (nonce_length : length s.nonce ≡ 12) (salt_bytes : All IsByte s.salt)
      (nonce_bytes : All IsByte box.nonce) (tag_bytes : All IsByte box.tag)
      (bounded : IsBounded params) where
    archive_of : Bytes
    archive_of =
        to_bytes4 (length (t.dumps (header_dict s params box)))
        ++ t.dumps (header_dict s params box)
        ++ box.ciphertext

    valid_as :
        (out : Files)
        → validate_payload t (t.tar fs) true ≡ inr out
        → validate_payload t (t.tar fs) true ≡ inr fs
    valid_as out e =
        e
        ∙ ap inr (
            sym (
              Keeps-inr fs out (validate_payload t (t.tar fs) true)
                (validate_payload-Keeps t fs true reads_tar) e))

    -- What the packing and the creation did, where they succeeded.
    packed :
        {payload : Bytes}
        → pack t file ≡ inr payload
        → (payload ≡ t.tar fs)
          × (length (t.tar fs) ≤ max_archive_bytes)
          × (validate_payload t (t.tar fs) true ≡ inr fs)
    unfolding pack
    packed h =
        let (files, e1, h1) = bind-eq-inr (gather t bundled_names file) _ h in
        let (_, e2, h2) =
          bind-eq-inr (demand (leb (length (t.tar files)) max_archive_bytes) backup_error) _ h1 in
        let (out, e3, h3) = bind-eq-inr (validate_payload t (t.tar files) true) _ h2 in
        let same : files ≡ fs = same_right (sym e1 ∙ gathered) in
        (
          sym (same_right h3) ∙ ap t.tar same,
          leb→le (length (t.tar fs)) max_archive_bytes (
              subst (λ x. leb (length (t.tar x)) max_archive_bytes ≡ true) same
                (demanded _ backup_error e2)),
          valid_as out (subst (λ x. validate_payload t (t.tar x) true ≡ inr out) same e3),
        )

    created :
        {archive : Bytes}
        → create_backup t false file passphrase s params ≡ inr archive
        → (archive ≡ archive_of)
          × (length (t.tar fs) ≤ max_archive_bytes)
          × (validate_payload t (t.tar fs) true ≡ inr fs)
    unfolding create_backup archive_of
    created h =
        let (_, e1, h1) = bind-eq-inr (demand (truthy passphrase) backup_error) _ h in
        let (payload, e2, h2) = bind-eq-inr (pack t file) _ h1 in
        let (same, small, valid) = packed e2 in
        let sealed' : seal t.gcm s.nonce kek payload (backup_aad true) ≡ some box =
          subst (λ p. seal t.gcm s.nonce kek p (backup_aad true) ≡ some box) (sym same) sealed in
        (sym (same_right (rw sealed' at (rw derived at h2))), small, valid)

    kek_length : length kek ≡ 32
    kek_length = length-derive_key_argon2id t.hashes passphrase s.salt params derived

    box_facts : (box.nonce ≡ s.nonce) × (length box.tag ≡ 16)
    box_facts = box_parts t.gcm s.nonce kek (t.tar fs) (backup_aad true) box sealed kek_length

    sized : is_box_sized s.salt box ≡ true
    sized =
        let n : length box.nonce ≡ 12 = ap (λ (b : Bytes). length b) box_facts.0 ∙ nonce_length in
        let g : length box.tag ≡ 16 = box_facts.1 in ground arith

    ciphertext_fits :
        length (t.tar fs) ≤ max_archive_bytes
        → (not (is_nil box.ciphertext) && leb (length box.ciphertext) max_archive_bytes) ≡ true
    ciphertext_fits small = full box.ciphertext same_length
      where
        full :
            (c : Bytes)
            → length c ≡ length (t.tar fs)
            → (not (is_nil c) && leb (length c) max_archive_bytes) ≡ true
        full [] e = absurd (omega arith)
        full (x ∷ c) e = le→leb (length (x ∷ c)) max_archive_bytes (omega arith)

    opens : open_box t.gcm kek box (backup_aad true) ≡ opened (t.tar fs)
    opens =
        let (made, e, o) =
          open_box-seal t.gcm s.nonce kek (t.tar fs) (backup_aad true) nonce_length kek_length in
        subst (λ b. open_box t.gcm kek b (backup_aad true) ≡ opened (t.tar fs))
          (same_some (sym e ∙ sealed)) o

    header : Bytes
    header = t.dumps (header_dict s params box)

    parsed :
        parse_header t header box.ciphertext
        ≡ inr (record { is_v2 = true; params = params; salt = s.salt; box = box })
    unfolding header
    parsed =
        rw
          (
            reads_json,
            params_from_dict-params_dict params bounded,
            b64decode-b64encode s.salt salt_bytes,
            b64decode-b64encode box.nonce nonce_bytes,
            b64decode-b64encode box.tag tag_bytes,
            sized,
          )
          refl

    decrypted_parts :
        length (t.tar fs) ≤ max_archive_bytes
        → decrypt_parts t header box.ciphertext passphrase ≡ inr (t.tar fs, true)
    decrypted_parts small = rw (ciphertext_fits small, parsed, derived, opens) refl

    header_allowed : (ltb 0 (length header) && leb (length header) max_header_bytes) ≡ true
    unfolding header
    header_allowed =
        let (some_bytes, few) = header_size in
        rw
          (
            lt→ltb 0 (length (t.dumps (header_dict s params box))) some_bytes,
            le→leb (length (t.dumps (header_dict s params box))) (64 * 1024) few,
          )
          refl

    decrypted :
        length (t.tar fs) ≤ max_archive_bytes
        → decrypt_archive t archive_of passphrase ≡ inr (t.tar fs, true)
    unfolding decrypt_archive archive_of header
    decrypted small =
        subst (λ n. decrypt_body t n (header ++ box.ciphertext) passphrase ≡ inr (t.tar fs, true))
          (sym (from_bytes4-to_bytes4 (length header)))
          (rw (header_allowed, split_at-append header box.ciphertext) (decrypted_parts small))

    -- An archive that was made can be verified with the same passphrase, and restoring it into an empty directory
    -- writes the files that were packed, each with the content that it had. The salt has 16 to 64 bytes and the
    -- nonce 12, what is written in base64 are bytes, and the cost is within its limits; the cipher keeps the length of
    -- the text, reading a tar file or a JSON text gives back what was written, a tar file is not empty, and the
    -- JSON text of the header has at most 64 KiB.
    pub restore_backup-create_backup :
        (archive : Bytes)
        → create_backup t false file passphrase s params ≡ inr archive
        → (verify_backup t archive passphrase ≡ inr true)
          × (restore_backup t true archive passphrase none true ≡ inr fs)
          × ((k : String) → among k bundled_names ≡ true → find k fs ≡ file k)
    unfolding verify_backup restore_backup
    restore_backup-create_backup archive made =
        let (same, small, valid) = created made in
        let opened_again : decrypt_archive t archive passphrase ≡ inr (t.tar fs, true) =
          subst (λ a. decrypt_archive t a passphrase ≡ inr (t.tar fs, true)) (sym same)
            (decrypted small) in
        (
          rw (opened_again) (rw valid refl),
          rw opened_again (rw valid refl),
          λ k m. gather-find t bundled_names file fs gathered k m,
        )
