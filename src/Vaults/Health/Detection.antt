-- ===== src/Vaults/Health/Detection.antt =====
-- src/passman/core/vaults/health.py: the health check finds every change since the manifest was written.
use ash_password_manager.Common.{
  Bool, true, false, not, ◌||◌, Option, none, some, List, [], ◌∷◌, ◌++◌, Bytes, same_bytes_refl,
  same_bytes→eq, String, ◌=s=◌, str_eq→eq, keep, is_some, if◌then◌else◌, ◌≡◌, ◌↔◌, refl, sym, ap,
  ◌∙◌, subst, Bool-cases, inl, inr,
}
use ash_password_manager.Common.Json.{Json, Fields, null, end, field, get}
use ash_password_manager.Vaults.Health.{
  Stick, tracked_files, mem, get_null, key_list, same_digest, ok, HealthCheck, report_status,
  sha256_file, digests, differing, compared, update_integrity_manifest, check_vault_health, check,
  present,
}

-- What the manifest covers of a name: the content of a tracked file.
abbrev pub covered : Stick → String → Option Bytes
covered s name = if mem name (tracked_files s) then s.file name else none

-- The files without which no login can succeed.
abbrev pub HasEssentials : Stick → Type 0
HasEssentials t =
    (is_some (t.file "vault.json") ≡ true)
    × (t.has_kdbx ≡ true)
    × (t.has_keyfile ≡ true)
    × (mem "keyslots/password.slot" t.slots ≡ true)

mem-append : (x : String) (xs ys : List String) → mem x (xs ++ ys) ≡ (mem x xs || mem x ys)
mem-append x [] ys = refl
mem-append x (y ∷ xs) ys = elim (Bool-cases (y =s= x)) [
  | inl here ↦ rw here refl
  | inr later ↦ rw later (mem-append x xs ys)
]

abbrev null_or : Option Json → Json
null_or none = null
null_or (some v) = v

get-absent : (k : String) (fs : Fields) → mem k (key_list fs) ≡ false → get k fs ≡ none
get-absent k end h = refl
get-absent k (field j v fs) h = elim (Bool-cases (j =s= k)) [
  | inl here ↦ absurd (clash (rw here at h))
  | inr later ↦ rw later (get-absent k fs (rw later at h))
]
  where
    clash : true ≡ false → ⊥
    clash e = cc e

-- Nothing is kept exactly where the test fails for every name of the list.
keep-eq-nil :
    (p : String → Bool) (xs : List String) (x : String)
    → keep p xs ≡ []
    → mem x xs ≡ true
    → p x ≡ false
keep-eq-nil p [] x h m = absurd (cc m)
keep-eq-nil p (y ∷ xs) x h m = elim (Bool-cases (p y)) [
  | inl kept ↦ absurd (kept_clash (rw kept at h))
  | inr dropped ↦ elim (Bool-cases (y =s= x)) [
    | inl here ↦ subst (λ z. p z ≡ false) (str_eq→eq y x here) dropped
    | inr later ↦ keep-eq-nil p xs x (rw dropped at h) (rw later at m)
  ]
]
  where
    kept_clash : {zs : List String} → y ∷ zs ≡ [] → ⊥
    kept_clash e = cc e

nil-keep : (p : String → Bool) (xs : List String) → ((x : String) → p x ≡ false) → keep p xs ≡ []
nil-keep p [] h = refl
nil-keep p (y ∷ xs) h = rw (h y) (nil-keep p xs h)

module _ (sha256 : Bytes → Bytes) where
  get-digests :
      (s : Stick) (names : List String) (name : String)
      → get name (digests sha256 s names)
        ≡ (if mem name names then some (sha256_file sha256 (s.file name)) else none)
  get-digests s [] name = refl
  get-digests s (x ∷ names) name = elim (Bool-cases (x =s= name)) [
    | inl here ↦ rw here (ap (λ y. some (sha256_file sha256 (s.file y))) (str_eq→eq x name here))
    | inr later ↦ rw later (get-digests s names name)
  ]

  null_or-covered :
      (s : Stick) (name : String) (b : Bool)
      → null_or (if b then some (sha256_file sha256 (s.file name)) else none)
        ≡ sha256_file sha256 (if b then s.file name else none)
  null_or-covered s name true = refl
  null_or-covered s name false = refl

  covered-digest :
      (s : Stick) (name : String)
      → get_null name (digests sha256 s (tracked_files s)) ≡ sha256_file sha256 (covered s name)
  covered-digest s name =
      ap null_or (get-digests s (tracked_files s) name)
      ∙ null_or-covered s name (mem name (tracked_files s))

  same_digest_refl :
      (o : Option Bytes) → same_digest (sha256_file sha256 o) (sha256_file sha256 o) ≡ true
  same_digest_refl none = refl
  same_digest_refl (some content) = same_bytes_refl (sha256 content)

  same_digest→eq :
      (o o' : Option Bytes)
      → ((a b : Bytes) → o ≡ some a → o' ≡ some b → sha256 a ≡ sha256 b → a ≡ b)
      → same_digest (sha256_file sha256 o) (sha256_file sha256 o') ≡ true
      → o ≡ o'
  same_digest→eq none none distinct h = refl
  same_digest→eq none (some b) distinct h = absurd (cc h)
  same_digest→eq (some a) none distinct h = absurd (cc h)
  same_digest→eq (some a) (some b) distinct h =
      ap some (distinct a b refl refl (same_bytes→eq (sha256 a) (sha256 b) h))

  abbrev checks_of : Bool → Bool → Bool → Bool → List String → List HealthCheck
  checks_of vault kdbx keyfile slot names =
      present "vault.json" vault
      ∷ present "Passwords.kdbx" kdbx
      ∷ present "Key.key" keyfile
      ∷ present "Password slot" slot
      ∷ check "Device slots" ok
      ∷ compared sha256 names
      ∷ []

  healthy_parts :
      (vault kdbx keyfile slot : Bool) (names : List String)
      → report_status (checks_of vault kdbx keyfile slot names) ≡ ok
      → (vault ≡ true) × (kdbx ≡ true) × (keyfile ≡ true) × (slot ≡ true) × (names ≡ [])
  unfolding report_status
  healthy_parts true true true true [] h = (refl, refl, refl, refl, refl)
  healthy_parts true true true true (x ∷ names) h = absurd (cc h)
  healthy_parts true true true false [] h = absurd (cc h)
  healthy_parts true true true false (x ∷ names) h = absurd (cc h)
  healthy_parts true true false slot names h = absurd (cc h)
  healthy_parts true false keyfile slot names h = absurd (cc h)
  healthy_parts false kdbx keyfile slot names h = absurd (cc h)

  healthy_whole :
      (vault kdbx keyfile slot : Bool) (names : List String)
      → vault ≡ true
      → kdbx ≡ true
      → keyfile ≡ true
      → slot ≡ true
      → names ≡ []
      → report_status (checks_of vault kdbx keyfile slot names) ≡ ok
  unfolding report_status
  healthy_whole vault kdbx keyfile slot names a b c d e = rw (a, b, c, d, e) refl

  module _ (s t : Stick) where
    recorded : Fields
    recorded = digests sha256 s (tracked_files s)

    abbrev is_changed : String → Bool
    is_changed name =
        not (
          same_digest (get_null name recorded) (get_null name (digests sha256 t (tracked_files t))))

    -- No two of the contents that are compared have the same digest.
    abbrev pub Distinct : Type 0
    Distinct =
        (name : String) (a b : Bytes)
        → covered s name ≡ some a
        → covered t name ≡ some b
        → sha256 a ≡ sha256 b
        → a ≡ b

    agree-same : (name : String) → covered t name ≡ covered s name → is_changed name ≡ false
    unfolding recorded
    agree-same name e =
        rw (covered-digest s name, covered-digest t name, e, same_digest_refl (covered s name)) refl

    of_not : (b : Bool) → not b ≡ false → b ≡ true
    of_not true h = refl
    of_not false h = cc h

    none_of_null : (o : Option Bytes) → null ≡ sha256_file sha256 o → o ≡ none
    none_of_null none h = refl
    none_of_null (some c) h = absurd (cc h)

    or_parts : (a b : Bool) → (a || b) ≡ false → (a ≡ false) × (b ≡ false)
    or_parts false b h = (refl, h)
    or_parts true b h = absurd (cc h)

    agree_outside :
        (name : String)
        → mem name (tracked_files t) ≡ false
        → mem name (key_list recorded) ≡ false
        → covered t name ≡ covered s name
    unfolding recorded
    agree_outside name here there =
        let gone : covered t name ≡ none = rw here refl in
        let absent : covered s name ≡ none =
          none_of_null (covered s name)
            (sym (ap null_or (get-absent name recorded there)) ∙ covered-digest s name) in
        gone ∙ sym absent

    agree_inside :
        Distinct → (name : String) → is_changed name ≡ false → covered t name ≡ covered s name
    unfolding recorded
    agree_inside distinct name h = sym (
        same_digest→eq (covered s name) (covered t name) (distinct name) (
          subst (λ j. same_digest j (sha256_file sha256 (covered t name)) ≡ true)
            (covered-digest s name)
            (subst (λ j. same_digest (get_null name recorded) j ≡ true) (covered-digest t name)
              (of_not _ h))))

    agree :
        Distinct
        → differing sha256 t recorded ≡ []
        → (name : String) → covered t name ≡ covered s name
    agree distinct h name = elim (Bool-cases (mem name (tracked_files t ++ key_list recorded))) [
      | inl inside ↦
          agree_inside distinct name
            (keep-eq-nil is_changed (tracked_files t ++ key_list recorded) name h inside)
      | inr outside ↦
          let (here, there) =
            or_parts _ _ (sym (mem-append name (tracked_files t) (key_list recorded)) ∙ outside) in
          agree_outside name here there
    ]

-- The manifest of one state of a container against another state: where no two contents that are compared have the
-- same digest, the report is OK exactly when the four essential files are there and every tracked file is as it
-- was when the manifest was written, none changed, none gone and none new.
pub check_vault_health-ok_iff :
    (sha256 : Bytes → Bytes) (now : Bytes) (s t : Stick)
    → Distinct sha256 s t
    → (report_status (
          check_vault_health sha256
            (record t { manifest = (update_integrity_manifest sha256 now s).manifest }))
        ≡ ok)
      ↔ (HasEssentials t × ((name : String) → covered t name ≡ covered s name))
unfolding check_vault_health update_integrity_manifest recorded
check_vault_health-ok_iff sha256 now s t distinct = (
  (λ h.
      let (vault, kdbx, keyfile, slot, same) =
        healthy_parts sha256 (is_some (t.file "vault.json")) t.has_kdbx t.has_keyfile
          (mem "keyslots/password.slot" t.slots) (differing sha256 t (recorded sha256 s t)) h in
      ((vault, kdbx, keyfile, slot), agree sha256 s t distinct same)),
  λ (essential, same).
      healthy_whole sha256 _ _ _ _ (differing sha256 t (recorded sha256 s t)) essential.0
        essential.1 essential.2 essential.3
        (nil-keep (is_changed sha256 s t) (tracked_files t ++ key_list (recorded sha256 s t))
          (λ name. agree-same sha256 s t name (same name))),
)
