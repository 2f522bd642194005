-- ===== src/Backup/Payload/Kept.antt =====
-- src/passman/core/backup/archive.py: a payload that is accepted gives the files that were packed.
use ash_password_manager.Common.{
  ◌+◌, Bool, true, false, not, ◌&&◌, ◌||◌, Option, none, some, List, [], ◌∷◌, ◌++◌, Bytes, String,
  ◌=s=◌, length, ltb, leb, ◌==◌, if◌then◌else◌, inl, inr, ◌≡◌, refl, sym, ap, ◌∙◌, subst,
  Bool-cases, str_eq→eq, append_assoc, append-nil,
}
use ash_password_manager.Backup.{
  BackupFailure, backup_error, corrupt, Outcome, ◌>>=◌, demand, some_or_corrupt, member_of,
  members_of, Files, Formats, max_archive_bytes, find, total, bind-eq-inr, same_right,
}
use ash_password_manager.Backup.Payload.{
  among, is_present, add_member, add_members, checked_files, checked_slot, part, all_present,
  expected_names, is_vault, is_roster, validate_payload, gather_one, gather,
}

-- A result that is a value is this one.
abbrev pub Keeps : {A : Type 0} → A → Outcome A → Type 0
Keeps a (inl e) = Unit
Keeps a (inr b) = a ≡ b

Keeps-bind :
    {A B : Type 0} (b : B) (m : Outcome A) (f : A → Outcome B)
    → ((a : A) → Keeps b (f a))
    → Keeps b (m >>= f)
Keeps-bind b (inl e) f h = tt
Keeps-bind b (inr a) f h = h a

pub Keeps-inr : {A : Type 0} (a b : A) (m : Outcome A) → Keeps a m → m ≡ inr b → a ≡ b
Keeps-inr {A = A} a b (inl e) k h = absurd (clash e h)
  where
    clash : (e : BackupFailure) → ◌≡◌ {A = Outcome A} (inl e) (inr b) → ⊥
    clash e h = cc h
Keeps-inr a b (inr c) k h = k ∙ same_right h

Keeps-if :
    {A : Type 0} (a : A) (b : Bool) (m : Outcome A)
    → Keeps a m
    → Keeps a (if b then inl corrupt else m)
Keeps-if a true m k = tt
Keeps-if a false m k = k

module _ (t : Formats) where
  add_member-Keeps :
      (expected : List String) (acc : Files) (k : String) (v : Bytes)
      → Keeps (acc ++ (k, v) ∷ []) (add_member t expected acc (member_of (k, v)))
  add_member-Keeps expected acc k v =
      Keeps-if (acc ++ (k, v) ∷ []) (not (among k expected) || is_present k acc || false) _ (
        Keeps-if (acc ++ (k, v) ∷ [])
          (not (ltb 0 (length v) && leb (length v) max_archive_bytes)
            || ltb max_archive_bytes (total acc + length v))
          _
          (Keeps-if (acc ++ (k, v) ∷ []) (not (length v == length v)) (inr (acc ++ (k, v) ∷ []))
            refl))

  -- Members that are added are those files, in their order.
  add_members-Keeps :
      (expected : List String) (acc fs : Files)
      → Keeps (acc ++ fs) (add_members t expected acc (members_of fs))
  add_members-Keeps expected acc [] = append-nil acc
  add_members-Keeps expected acc ((k, v) ∷ fs) =
      go (add_member t expected acc (member_of (k, v))) (add_member-Keeps expected acc k v)
        (λ more. add_members-Keeps expected more fs)
    where
      go :
          (m : Outcome Files)
          → Keeps (acc ++ (k, v) ∷ []) m
          → ((more : Files) → Keeps (more ++ fs) (add_members t expected more (members_of fs)))
          → Keeps (acc ++ (k, v) ∷ fs) (m >>= λ more. add_members t expected more (members_of fs))
      go (inl e) same rest = tt
      go (inr more) same rest =
          subst (λ x. Keeps x (add_members t expected more (members_of fs)))
            (ap (λ (x : Files). x ++ fs) (sym same) ∙ append_assoc acc ((k, v) ∷ []) fs) (rest more)

  checked_files-Keeps : (is_v2 : Bool) (files : Files) → Keeps files (checked_files t is_v2 files)
  checked_files-Keeps is_v2 files =
      Keeps-bind files (demand (all_present (expected_names t is_v2) files) corrupt) _ λ a.
        Keeps-bind files (part t "vault.json" files) _ λ vault_raw.
          Keeps-bind files (some_or_corrupt (t.loads vault_raw)) _ λ vault.
            Keeps-bind files (part t "devices.json" files) _ λ devices_raw.
              Keeps-bind files (some_or_corrupt (t.loads devices_raw)) _ λ devices.
                Keeps-bind files (demand (is_vault vault) corrupt) _ λ b.
                  Keeps-bind files (demand (is_roster devices) corrupt) _
                    λ c. Keeps-bind files (checked_slot t is_v2 files vault) _ λ d. refl

  -- A payload that is accepted gives the files that were packed.
  pub validate_payload-Keeps :
      (fs : Files) (is_v2 : Bool)
      → t.untar (t.tar fs) ≡ some (members_of fs)
      → Keeps fs (validate_payload t (t.tar fs) is_v2)
  unfolding validate_payload
  validate_payload-Keeps fs is_v2 reads = rw reads (
      go (add_members t (expected_names t is_v2) [] (members_of fs))
        (add_members-Keeps (expected_names t is_v2) [] fs))
    where
      go : (m : Outcome Files) → Keeps fs m → Keeps fs (m >>= λ files. checked_files t is_v2 files)
      go (inl e) same = tt
      go (inr files) same =
          subst (λ x. Keeps x (checked_files t is_v2 files)) (sym same)
            (checked_files-Keeps is_v2 files)

  gather_one_lem :
      (k : String) (o : Option Bytes) {f : String × Bytes}
      → gather_one t k o ≡ inr f
      → (c : Bytes) × (o ≡ some c) × (f ≡ (k, c))
  gather_one_lem k none h = absurd (cc h)
  gather_one_lem k (some c) h = elim (Bool-cases (ltb max_archive_bytes (length c))) [
    | inl large ↦ absurd (clash (rw large at h))
    | inr small ↦ (c, refl, sym (same_right (rw small at h)))
  ]
    where
      clash :
          {f : String × Bytes} → ◌≡◌ {A = Outcome (String × Bytes)} (inl backup_error) (inr f) → ⊥
      clash h = cc h

  -- Each file that was gathered is the file of the container.
  pub gather-find :
      (ks : List String) (file : String → Option Bytes) (fs : Files)
      → gather t ks file ≡ inr fs
      → (k : String) → among k ks ≡ true
      → find k fs ≡ file k
  gather-find [] file fs h k m = absurd (cc m)
  gather-find (j ∷ ks) file fs h k m =
      let (f, e1, h1) = bind-eq-inr (gather_one t j (file j)) _ h in
      let (rest, e2, h2) = bind-eq-inr (gather t ks file) _ h1 in
      let (c, here, is) = gather_one_lem j (file j) e1 in
      let shape : (j, c) ∷ rest ≡ fs =
        ap (λ (x : String × Bytes). x ∷ rest) (sym is) ∙ same_right h2 in
      subst (λ x. find k x ≡ file k) shape
        (elim (Bool-cases (j =s= k)) [
          | inl same ↦ rw same (sym here ∙ ap file (str_eq→eq j k same))
          | inr other ↦ rw other (gather-find ks file rest e2 k (rw other at m))
        ])
