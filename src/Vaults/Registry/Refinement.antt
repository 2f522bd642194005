-- ===== src/Vaults/Registry/Refinement.antt =====
-- src/passman/core/vaults/registry.py: the list of records is a map from ids.
use ash_password_manager.Common.{
  Bool, true, false, not, Option, none, some, List, [], ◌∷◌, ◌++◌, map, keep, first, String, ◌=s=◌,
  str_eq→eq, ◌≡◌, refl, sym, ap, ◌∙◌, Bool-cases, subst, if◌then◌else◌, inl, inr,
}
use ash_password_manager.Vaults.Record.{VaultRecord}
use ash_password_manager.Vaults.Registry.{
  is_called, add_vault, remove_vault, get_vault, seen_at, touch_last_seen,
}

pub data Edit : Type 0 where
  adds : VaultRecord → Edit
  removes : String → Edit
  touches : String → String → Edit

abbrev pub edit : Edit → List VaultRecord → List VaultRecord
edit (adds v) records = add_vault v records
edit (removes id) records = remove_vault id records
edit (touches now id) records = touch_last_seen now id records

-- The registry after some edits, the latest first.
abbrev pub registry : List Edit → List VaultRecord
registry [] = []
registry (e ∷ past) = edit e (registry past)

abbrev pub seen_if : String → Option VaultRecord → Option VaultRecord
seen_if now none = none
seen_if now (some r) = some (seen_at now r)

-- The same edits of a map.
abbrev pub entry : List Edit → String → Option VaultRecord
entry [] id = none
entry (adds v ∷ past) id = if v.vault_id =s= id then some v else entry past id
entry (removes k ∷ past) id = if k =s= id then none else entry past id
entry (touches now k ∷ past) id = if k =s= id then seen_if now (entry past id) else entry past id

-- Two tests for ids that agree.
other-id : (s t u : String) → (s =s= t) ≡ true → (u =s= t) ≡ false → (s =s= u) ≡ false
other-id s t u same other = elim (Bool-cases (s =s= u)) [
  | inr no_match ↦ no_match
  | inl match_u ↦
      absurd (clash (sym (subst (λ x. (x =s= t) ≡ true) (str_eq→eq s u match_u) same) ∙ other))
]
  where
    clash : ◌≡◌ {A = Bool} true false → ⊥
    clash h = cc h

first-removed :
    (id k : String) (rs : List VaultRecord)
    → (k =s= id) ≡ true
    → first (is_called id) (keep (λ r. not (is_called k r)) rs) ≡ none
first-removed id k [] h = refl
first-removed id k (r ∷ rs) h = elim (Bool-cases (is_called k r)) [
  | inl gone ↦ rw gone (first-removed id k rs h)
  | inr kept ↦
      rw (kept, subst (λ x. (r.vault_id =s= x) ≡ false) (str_eq→eq k id h) kept)
        (first-removed id k rs h)
]

first-kept :
    (id k : String) (rs : List VaultRecord)
    → (k =s= id) ≡ false
    → first (is_called id) (keep (λ r. not (is_called k r)) rs) ≡ first (is_called id) rs
first-kept id k [] h = refl
first-kept id k (r ∷ rs) h = elim (Bool-cases (is_called id r)) [
  | inl found ↦ rw (found, other-id r.vault_id id k found h) (rw found refl)
  | inr other ↦ elim (Bool-cases (is_called k r)) [
    | inl gone ↦ rw (gone, other) (first-kept id k rs h)
    | inr kept ↦ rw (kept, other) (first-kept id k rs h)
  ]
]

-- A record found in a longer list.
first-end :
    (id : String) (rs : List VaultRecord) (v : VaultRecord)
    → first (is_called id) rs ≡ none
    → first (is_called id) (rs ++ v ∷ []) ≡ (if is_called id v then some v else none)
first-end id [] v h = refl
first-end id (r ∷ rs) v h = elim (Bool-cases (is_called id r)) [
  | inl found ↦ absurd (none_clash (sym (head found) ∙ h))
  | inr other ↦ rw other (first-end id rs v (sym (next other) ∙ h))
]
  where
    none_clash : ◌≡◌ {A = Option VaultRecord} (some r) none → ⊥
    none_clash e = cc e

    head : is_called id r ≡ true → first (is_called id) (r ∷ rs) ≡ some r
    head found = rw found refl

    next : is_called id r ≡ false → first (is_called id) (r ∷ rs) ≡ first (is_called id) rs
    next other = rw other refl

first-other :
    (id : String) (rs : List VaultRecord) (v : VaultRecord)
    → is_called id v ≡ false
    → first (is_called id) (rs ++ v ∷ []) ≡ first (is_called id) rs
first-other id [] v h = rw h refl
first-other id (r ∷ rs) v h = elim (Bool-cases (is_called id r)) [
  | inl found ↦ rw found refl
  | inr other ↦ rw other (first-other id rs v h)
]

abbrev touched : String → String → VaultRecord → VaultRecord
touched now k r = if is_called k r then seen_at now r else r

first-touched :
    (now id k : String) (rs : List VaultRecord)
    → (k =s= id) ≡ true
    → first (is_called id) (map (touched now k) rs) ≡ seen_if now (first (is_called id) rs)
first-touched now id k [] h = refl
first-touched now id k (r ∷ rs) h = elim (Bool-cases (is_called k r)) [
  | inl here ↦ rw (here, subst (λ x. (r.vault_id =s= x) ≡ true) (str_eq→eq k id h) here) refl
  | inr other ↦
      rw (other, subst (λ x. (r.vault_id =s= x) ≡ false) (str_eq→eq k id h) other)
        (first-touched now id k rs h)
]

first-untouched :
    (now id k : String) (rs : List VaultRecord)
    → (k =s= id) ≡ false
    → first (is_called id) (map (touched now k) rs) ≡ first (is_called id) rs
first-untouched now id k [] h = refl
first-untouched now id k (r ∷ rs) h = elim (Bool-cases (is_called id r)) [
  | inl found ↦ rw (other-id r.vault_id id k found h) (rw found refl)
  | inr other ↦ elim (Bool-cases (is_called k r)) [
    | inl here ↦ rw (here, other) (first-untouched now id k rs h)
    | inr not_here ↦ rw (not_here, other) (first-untouched now id k rs h)
  ]
]

-- Whatever sequence of additions, removals and sightings made the registry, looking an id up in its list of
-- records gives what a map from ids would hold after the same edits: the record added last under that id
-- unless it was removed since, with the time of the last sighting since it was added.
pub get_vault-entry :
    (past : List Edit) (id : String) → get_vault id (registry past) ≡ entry past id
unfolding add_vault remove_vault get_vault touch_last_seen
get_vault-entry [] id = refl
get_vault-entry (adds v ∷ past) id = elim (Bool-cases (v.vault_id =s= id)) [
  | inl same ↦
      rw same (first-end id _ v (first-removed id v.vault_id (registry past) same) ∙ rw same refl)
  | inr other ↦ rw other (
      first-other id _ v other
      ∙ first-kept id v.vault_id (registry past) other
      ∙ get_vault-entry past id)
]
get_vault-entry (removes k ∷ past) id = elim (Bool-cases (k =s= id)) [
  | inl same ↦ rw same (first-removed id k (registry past) same)
  | inr other ↦ rw other (first-kept id k (registry past) other ∙ get_vault-entry past id)
]
get_vault-entry (touches now k ∷ past) id = elim (Bool-cases (k =s= id)) [
  | inl same ↦
      rw same
        (first-touched now id k (registry past) same ∙ ap (seen_if now) (get_vault-entry past id))
  | inr other ↦ rw other (first-untouched now id k (registry past) other ∙ get_vault-entry past id)
]
