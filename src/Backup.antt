-- ===== src/Backup.antt =====
-- src/passman/core/backup/archive.py: encrypted backups. The file format of tar, json.loads and
-- json.dumps, the cipher and the hashes are parameters; files are their contents.
pub mod Payload
pub mod Envelope
pub mod Recovery
pub mod Tests
use ash_password_manager.Common.{
  ℕ, zero, suc, ◌+◌, ◌*◌, ◌/◌, ◌%◌, ◌^◌, Bool, true, false, not, ◌&&◌, ◌||◌, Option, none, some,
  List, [], ◌∷◌, ◌++◌, Bytes, String, ◌=s=◌, length, ltb, leb, ◌==◌, same_bytes, if◌then◌else◌, ◌⊎◌,
  inl, inr, ◌≡◌, refl,
}
use ash_password_manager.Common.Json.{Json, Exception, Try}
use ash_password_manager.Crypto.Aead.{Gcm}
use ash_password_manager.Crypto.Kdf.{Hashes}

-- BackupError, BackupCorruptError, BackupWrongPassphraseError, and a ValueError of a wiped passphrase.
pub data BackupFailure : Type 0 where
  backup_error corrupt wrong_passphrase bad_value : BackupFailure

abbrev pub Outcome : Type 0 → Type 0
Outcome A = BackupFailure ⊎ A

infixl 5 ◌>>=◌
abbrev pub ◌>>=◌ : {A B : Type 0} → Outcome A → (A → Outcome B) → Outcome B
inl e >>= f = inl e
inr a >>= f = f a

abbrev pub demand : Bool → BackupFailure → Outcome (Unit {0})
demand true e = inr tt
demand false e = inl e

-- Every exception that the handlers name becomes BackupCorruptError.
abbrev pub or_corrupt : {A : Type 0} → Try A → Outcome A
or_corrupt (inl e) = inl corrupt
or_corrupt (inr a) = inr a

abbrev pub some_or_corrupt : {A : Type 0} → Option A → Outcome A
some_or_corrupt none = inl corrupt
some_or_corrupt (some a) = inr a

-- A member of a tar file; `contents` is what reading it gives.
pub record Member : Type 0 where
  pub name : String
  pub size : ℕ
  pub is_plain : Bool
  pub contents : Option Bytes

abbrev pub Files : Type 0
Files = List (String × Bytes)

abbrev pub member_of : String × Bytes → Member
member_of (name, contents) = record {
  name = name;
  size = length contents;
  is_plain = true;
  contents = some contents;
}

abbrev pub members_of : Files → List Member
members_of [] = []
members_of (f ∷ fs) = member_of f ∷ members_of fs

pub record Formats : Type 0 where
  pub tar : Files → Bytes
  pub untar : Bytes → Option (List Member)
  pub loads : Bytes → Option Json
  pub dumps : Json → Bytes
  pub repr : Json → Bytes
  pub gcm : Gcm
  pub hashes : Hashes

abbrev pub max_header_bytes : ℕ
max_header_bytes = 64 * 1024

-- 512 MiB. It is shut, so that nothing counts up to it.
unfoldable pub max_archive_bytes : ℕ
max_archive_bytes = 512 * 1024 * 1024

abbrev pub is_nil : Bytes → Bool
is_nil [] = true
is_nil (c ∷ cs) = false

abbrev pub find : String → Files → Option Bytes
find k [] = none
find k ((j, v) ∷ fs) = let rest = find k fs in if j =s= k then some v else rest

abbrev pub total : Files → ℕ
total [] = 0
total ((k, v) ∷ fs) = length v + total fs

-- A computation that succeeds has succeeded in its first step.
pub bind-eq-inr :
    {A B : Type 0} (m : Outcome A) (f : A → Outcome B) {b : B}
    → (m >>= f) ≡ inr b
    → (a : A) × (m ≡ inr a) × (f a ≡ inr b)
bind-eq-inr {A} {B} (inl e) f h = absurd (clash h)
  where
    clash : {b : B} → ◌≡◌ {A = Outcome B} (inl e) (inr b) → ⊥
    clash h = cc h
bind-eq-inr (inr a) f h = (a, refl, h)

pub demanded : (b : Bool) (e : BackupFailure) → demand b e ≡ inr tt → b ≡ true
demanded true e h = refl
demanded false e h = cc h

pub same_right : {A : Type 0} {a b : A} → ◌≡◌ {A = Outcome A} (inr a) (inr b) → a ≡ b
same_right h = cc h
