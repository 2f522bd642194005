-- ===== src/Settings/Survival.antt =====
-- src/passman/config/store.py: valid settings survive saving and loading.
use ash_password_manager.Common.{
  Bool, true, false, not, ◌&&◌, some, String, ◌=s=◌, str_eq_refl, if◌then◌else◌, inr, ◌≡◌, refl,
  sym, ap, ◌∙◌, subst,
}
use ash_password_manager.Common.Json.{Json, Fields, end, field, get}
use ash_password_manager.Settings.{
  defaults, overlay, sanitize_types, checked_settings, load_settings, settings_dict,
}
use ash_password_manager.Settings.Validity.{WellTyped, IsValid, and_parts}

abbrev absent : String → Fields → Bool
absent k end = true
absent k (field j v fs) = not (k =s= j) && absent k fs

abbrev distinct_names : Fields → Bool
distinct_names end = true
distinct_names (field k v fs) = absent k fs && distinct_names fs

absent-WellTyped : (k : String) (ds vs : Fields) → WellTyped ds vs → absent k vs ≡ absent k ds
absent-WellTyped k end end w = refl
absent-WellTyped k end (field j v vs) w = absurd w
absent-WellTyped k (field i d ds) end w = absurd w
absent-WellTyped k (field i d ds) (field j v vs) w = rw (w.0, absent-WellTyped k ds vs w.2) refl

distinct_names-WellTyped :
    (ds vs : Fields) → WellTyped ds vs → distinct_names vs ≡ distinct_names ds
distinct_names-WellTyped end end w = refl
distinct_names-WellTyped end (field j v vs) w = absurd w
distinct_names-WellTyped (field i d ds) end w = absurd w
distinct_names-WellTyped (field i d ds) (field j v vs) w =
    rw (w.0, absent-WellTyped j ds vs w.2, distinct_names-WellTyped ds vs w.2) refl

-- Each field of the first is what the second gives under its name.
abbrev Within : Fields → Fields → Type 0
Within end full = Unit
Within (field j v vs) full = (get j full ≡ some v) × Within vs full

Within-field :
    (k : String) (x : Json) (vs full : Fields)
    → absent k vs ≡ true
    → Within vs full
    → Within vs (field k x full)
Within-field k x end full h w = tt
Within-field k x (field j v vs) full h w =
    let (apart, rest) = and_parts (not (k =s= j)) (absent k vs) h in
    (skipped (k =s= j) apart, Within-field k x vs full rest w.1)
  where
    skipped : (b : Bool) → not b ≡ true → (if b then some x else get j full) ≡ some v
    skipped true e = absurd (cc e)
    skipped false e = w.0

distinct_names-Within : (vs : Fields) → distinct_names vs ≡ true → Within vs vs
distinct_names-Within end h = tt
distinct_names-Within (field k v vs) h =
    let (apart, rest) = and_parts (absent k vs) (distinct_names vs) h in
    (rw (str_eq_refl k) refl, Within-field k v vs vs apart (distinct_names-Within vs rest))

overlay-Within : (ds vs full : Fields) → WellTyped ds vs → Within vs full → overlay ds full ≡ vs
overlay-Within end end full w i = refl
overlay-Within end (field j v vs) full w i = absurd w
overlay-Within (field k d ds) end full w i = absurd w
overlay-Within (field k d ds) (field j v vs) full w i =
    let here : get k full ≡ some v = subst (λ z. get z full ≡ some v) (sym w.0) i.0 in
    rw (here, overlay-Within ds vs full w.2 i.1, w.0) refl

sanitize_types_same : (ds vs : Fields) → WellTyped ds vs → sanitize_types ds vs ≡ vs
sanitize_types_same end end w = refl
sanitize_types_same end (field j v vs) w = absurd w
sanitize_types_same (field k d ds) end w = absurd w
sanitize_types_same (field k d ds) (field j v vs) w = rw (w.1, sanitize_types_same ds vs w.2) refl

checked_settings_same : (cfg : Fields) → IsValid cfg → checked_settings cfg ≡ cfg
checked_settings_same cfg v =
    rw (v.theme) (rw v.timeout_key (rw v.guard_mode (rw v.removal_action refl)))

-- Settings that are valid, saved and loaded again, are the same settings.
pub load_settings-settings_dict :
    (cfg : Fields) → IsValid cfg → load_settings (settings_dict cfg) ≡ inr cfg
unfolding load_settings
load_settings-settings_dict cfg v =
    let within = distinct_names-Within cfg (distinct_names-WellTyped defaults cfg v.typed ∙ refl) in
    ap (λ c. inr (checked_settings (sanitize_types defaults c)))
      (overlay-Within defaults cfg cfg v.typed within)
    ∙ ap (λ c. inr (checked_settings c)) (sanitize_types_same defaults cfg v.typed)
    ∙ ap inr (checked_settings_same cfg v)
