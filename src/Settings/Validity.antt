-- ===== src/Settings/Validity.antt =====
-- src/passman/config/store.py: whatever the file holds, the settings that are loaded are valid.
use ash_password_manager.Common.{
  Bool, true, false, ◌&&◌, Option, some, List, Bytes, same_bytes, String, ◌=s=◌, str_eq→eq,
  if◌then◌else◌, inl, inr, ◌≡◌, refl, sym, ap, ◌∙◌, subst, Bool-cases,
}
use ash_password_manager.Common.Json.{Json, Fields, object, end, field, get}
use ash_password_manager.Settings.{
  defaults, theme_choices, clipboard_timeout_choices, safety_guard_choices, usb_removal_choices,
  overlay, or_value, same_type, sanitize_types, is_one_of, assign, restrict, checked_settings,
  load_settings, word,
}

-- The same names in the same order, each with a value of the type of its default.
abbrev pub WellTyped : Fields → Fields → Type 0
WellTyped end end = Unit
WellTyped (field k d ds) (field j v vs) = (k ≡ j) × (same_type d v ≡ true) × WellTyped ds vs
WellTyped ds vs = ⊥

pub record IsValid (cfg : Fields) : Type 0 where
  pub typed : WellTyped defaults cfg
  pub theme : is_one_of (get "theme" cfg) theme_choices ≡ true
  pub timeout_key : is_one_of (get "clipboard_timeout_key" cfg) clipboard_timeout_choices ≡ true
  pub guard_mode : is_one_of (get "safety_guard_mode" cfg) safety_guard_choices ≡ true
  pub removal_action : is_one_of (get "usb_removal_action" cfg) usb_removal_choices ≡ true

abbrev self_typed : Fields → Bool
self_typed end = true
self_typed (field k d ds) = same_type d d && self_typed ds

pub and_parts : (a b : Bool) → (a && b) ≡ true → (a ≡ true) × (b ≡ true)
and_parts true b h = (refl, h)
and_parts false b h = absurd (cc h)

pub sanitize_types-WellTyped :
    (ds raw : Fields) → self_typed ds ≡ true → WellTyped ds (sanitize_types ds (overlay ds raw))
sanitize_types-WellTyped end raw h = tt
sanitize_types-WellTyped (field k d ds) raw h =
    let (own_type, rest) = and_parts (same_type d d) (self_typed ds) h in
    (refl, chosen (or_value (get k raw) d) own_type, sanitize_types-WellTyped ds raw rest)
  where
    chosen : (v : Json) → same_type d d ≡ true → same_type d (if same_type d v then v else d) ≡ true
    chosen v own_type = elim (Bool-cases (same_type d v)) [
      | inl same ↦ rw same same
      | inr other ↦ rw other own_type
    ]

get-here :
    (k j : String) (v w : Json) (fs : Fields)
    → (j =s= k) ≡ true
    → get k (field j v fs) ≡ some w
    → v ≡ w
get-here k j v w fs same h = inner (sym (found same) ∙ h)
  where
    found : (j =s= k) ≡ true → get k (field j v fs) ≡ some v
    found e = rw e refl

    inner : ◌≡◌ {A = Option Json} (some v) (some w) → v ≡ w
    inner e = cc e

get-later :
    (k j : String) (v : Json) (fs : Fields) → (j =s= k) ≡ false → get k (field j v fs) ≡ get k fs
get-later k j v fs other = rw other refl

WellTyped-assign :
    (k : String) (v d : Json) (ds vs : Fields)
    → same_type d v ≡ true
    → get k ds ≡ some d
    → WellTyped ds vs
    → WellTyped ds (assign k v vs)
WellTyped-assign k v d end end typed h w = tt
WellTyped-assign k v d end (field j x vs) typed h w = absurd w
WellTyped-assign k v d (field i y ds) end typed h w = absurd w
WellTyped-assign k v d (field i y ds) (field j x vs) typed h w = elim (Bool-cases (j =s= k)) [
  | inl same ↦ rw same (
    w.0,
    subst (λ z. same_type z v ≡ true)
        (sym (get-here k i y d ds (subst (λ z. (z =s= k) ≡ true) (sym w.0) same) h)) typed,
    w.2,
  )
  | inr other ↦ rw other (
    w.0,
    w.1,
    WellTyped-assign k v d ds vs typed
        (sym (get-later k i y ds (subst (λ z. (z =s= k) ≡ false) (sym w.0) other)) ∙ h) w.2,
  )
]

WellTyped-get :
    (k : String) (d : Json) (ds vs : Fields)
    → get k ds ≡ some d
    → WellTyped ds vs
    → (v : Json) × (get k vs ≡ some v) × (same_type d v ≡ true)
WellTyped-get k d end vs h w = absurd (cc h)
WellTyped-get k d (field i y ds) end h w = absurd w
WellTyped-get k d (field i y ds) (field j x vs) h w = elim (Bool-cases (j =s= k)) [
  | inl same ↦ (
    x,
    rw same refl,
    subst (λ z. same_type z x ≡ true)
        (get-here k i y d ds (subst (λ z. (z =s= k) ≡ true) (sym w.0) same) h) w.1,
  )
  | inr other ↦
      let (v, e, t) =
        WellTyped-get k d ds vs
          (sym (get-later k i y ds (subst (λ z. (z =s= k) ≡ false) (sym w.0) other)) ∙ h) w.2 in
      (v, rw other e, t)
]

get-assign_self :
    (k : String) (v w : Json) (fs : Fields) → get k fs ≡ some w → get k (assign k v fs) ≡ some v
get-assign_self k v w end h = absurd (cc h)
get-assign_self k v w (field j x fs) h = elim (Bool-cases (j =s= k)) [
  | inl same ↦ rw same (rw same refl)
  | inr other ↦ rw other (rw other (get-assign_self k v w fs (sym (get-later k j x fs other) ∙ h)))
]

get-assign_other :
    (k j : String) (v : Json) (fs : Fields) → (k =s= j) ≡ false → get j (assign k v fs) ≡ get j fs
get-assign_other k j v end h = refl
get-assign_other k j v (field i x fs) h = elim (Bool-cases (i =s= k)) [
  | inl same ↦ rw same (rw (subst (λ z. (z =s= j) ≡ false) (sym (str_eq→eq i k same)) h) refl)
  | inr other ↦ rw other (rw (get-assign_other k j v fs h) refl)
]

module _ (k : String) (choices : List Bytes) (d : Json) (known : get k defaults ≡ some d)
    (own_type : same_type d d ≡ true) where
  restrict-WellTyped :
      (cfg : Fields) → WellTyped defaults cfg → WellTyped defaults (restrict k choices d cfg)
  restrict-WellTyped cfg w = elim (Bool-cases (is_one_of (get k cfg) choices)) [
    | inl fine ↦ rw fine w
    | inr bad ↦ rw bad (WellTyped-assign k d d defaults cfg own_type known w)
  ]

  restrict-chosen :
      (cfg : Fields)
      → WellTyped defaults cfg
      → is_one_of (some d) choices ≡ true
      → is_one_of (get k (restrict k choices d cfg)) choices ≡ true
  restrict-chosen cfg w member = elim (Bool-cases (is_one_of (get k cfg) choices)) [
    | inl fine ↦ rw fine fine
    | inr bad ↦
        let (v, e, t) = WellTyped-get k d defaults cfg known w in
        rw bad (rw (get-assign_self k d v cfg e) member)
  ]

restrict-other :
    (k j : String) (choices : List Bytes) (d : Json) (cfg : Fields)
    → (k =s= j) ≡ false
    → get j (restrict k choices d cfg) ≡ get j cfg
restrict-other k j choices d cfg h = elim (Bool-cases (is_one_of (get k cfg) choices)) [
  | inl fine ↦ rw fine refl
  | inr bad ↦ rw bad (get-assign_other k j d cfg h)
]

pub checked-IsValid : (cfg : Fields) → WellTyped defaults cfg → IsValid (checked_settings cfg)
unfolding same_bytes
checked-IsValid cfg w =
    let c1 = restrict "theme" theme_choices (word "ash") cfg in
    let c2 = restrict "clipboard_timeout_key" clipboard_timeout_choices (word "30s") c1 in
    let c3 = restrict "safety_guard_mode" safety_guard_choices (word "auto_high_confidence") c2 in
    let w1 = restrict-WellTyped "theme" theme_choices (word "ash") refl refl cfg w in
    let w2 =
      restrict-WellTyped "clipboard_timeout_key" clipboard_timeout_choices (word "30s") refl refl c1
        w1 in
    let w3 =
      restrict-WellTyped "safety_guard_mode" safety_guard_choices (word "auto_high_confidence") refl
        refl c2 w2 in
    let out = λ (j : String).
      restrict-other "usb_removal_action" j usb_removal_choices (word "lock_immediately") c3 in
    let mid = λ (j : String).
      restrict-other "safety_guard_mode" j safety_guard_choices (word "auto_high_confidence") c2 in
    let low = λ (j : String).
      restrict-other "clipboard_timeout_key" j clipboard_timeout_choices (word "30s") c1 in
    record {
      typed =
          restrict-WellTyped "usb_removal_action" usb_removal_choices (word "lock_immediately") refl
            refl c3 w3;
      theme =
          ap (λ o. is_one_of o theme_choices)
            (out "theme" refl ∙ mid "theme" refl ∙ low "theme" refl)
          ∙ restrict-chosen "theme" theme_choices (word "ash") refl refl cfg w refl;
      timeout_key =
          ap (λ o. is_one_of o clipboard_timeout_choices)
            (out "clipboard_timeout_key" refl ∙ mid "clipboard_timeout_key" refl)
          ∙ restrict-chosen "clipboard_timeout_key" clipboard_timeout_choices (word "30s") refl refl
              c1 w1 refl;
      guard_mode =
          ap (λ o. is_one_of o safety_guard_choices) (out "safety_guard_mode" refl)
          ∙ restrict-chosen "safety_guard_mode" safety_guard_choices (word "auto_high_confidence")
              refl refl c2 w2 refl;
      removal_action =
          restrict-chosen "usb_removal_action" usb_removal_choices (word "lock_immediately") refl
            refl c3 w3 refl;
    }

-- Whatever JSON object the settings file holds, loading gives settings: every known name and no other, each
-- with a value of the type of its default, and the theme, the clipboard timeout, the safety guard and the action on
-- USB removal among their choices.
pub load_settings-IsValid :
    (raw : Fields) → (cfg : Fields) × (load_settings (object raw) ≡ inr cfg) × IsValid cfg
unfolding load_settings
load_settings-IsValid raw = (
  checked_settings (sanitize_types defaults (overlay defaults raw)),
  refl,
  checked-IsValid (sanitize_types defaults (overlay defaults raw))
      (sanitize_types-WellTyped defaults raw refl),
)
