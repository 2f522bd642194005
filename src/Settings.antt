-- ===== src/Settings.antt =====
-- src/passman/config/store.py: the settings. A `Settings` object holds a JSON value in each of its
-- fields, as the dataclass does, which checks no types; what `read_json` gives of the file is an argument.
pub mod Validity
pub mod Survival
pub mod Tests
use ash_password_manager.Common.{
  ℕ, Bool, true, false, not, ◌&&◌, ◌||◌, Option, none, some, List, [], ◌∷◌, Bytes, same_bytes,
  String, ◌=s=◌, if◌then◌else◌, inl, inr,
}
use ash_password_manager.Common.Chars.{codes}
use ash_password_manager.Common.Ints.{ℤ, pos}
use ash_password_manager.Common.Json.{
  Json, Fields, null, boolean, integer, real, text, array, object, end, field, get, Try,
  attribute_error, truth,
}

abbrev pub word : String → Json
word s = text (codes s)

abbrev count : ℕ → Json
count n = integer (pos n)

-- `Settings()`
abbrev pub defaults : Fields
defaults = field "schema_version" (count 2) (
    field "theme" (word "ash") (
      field "ui_density" (word "comfortable") (
        field "inactivity_timeout_seconds" (count 300) (
          field "auto_lock_enabled" (boolean true) (
            field "lock_on_screen_lock" (boolean true) (
              field "lock_on_suspend" (boolean true) (
                field "lock_on_usb_removal" (boolean true) (
                  field "usb_removal_action" (word "lock_immediately") (
                    field "usb_removal_explained" (boolean false) (
                      field "clipboard_fallback_enabled" (boolean false) (
                        field "clipboard_timeout_key" (word "30s") (
                          field "hotkey_accelerator" (word "") (
                            field "hotkey_backend" (word "") (
                              field "typing_delay_ms" (count 12) (
                                field "key_delay_ms" (count 30) (
                                  field "totp_clock_drift_windows" (count 1) (
                                    field "login_step_timeout_ms" (count 4000) (
                                      field "login_retry_count" (count 1) (
                                        field "default_auth_strategy" (word "default") (
                                          field "safety_guard_mode" (word "auto_high_confidence") (
                                            field "suggested_account_enabled" (boolean true) (
                                              field "icon_cache_enabled" (boolean true) (
                                                field "search_case_sensitive" (boolean false) (
                                                  field "agent_autostart_enabled" (boolean true) (
                                                    field "bootstrap_installer_enabled"
                                                      (boolean false)
                                                      (field "diagnostic_mode" (boolean false)
                                                        end))))))))))))))))))))))))))

abbrev pub theme_choices : List Bytes
theme_choices = codes "ash" ∷ codes "dms" ∷ codes "dark" ∷ codes "light" ∷ []

abbrev pub clipboard_timeout_choices : List Bytes
clipboard_timeout_choices =
    codes "never" ∷ codes "15s" ∷ codes "30s" ∷ codes "60s" ∷ codes "5m" ∷ []

abbrev pub safety_guard_choices : List Bytes
safety_guard_choices = codes "auto_high_confidence" ∷ codes "always_confirm" ∷ []

abbrev pub usb_removal_choices : List Bytes
usb_removal_choices = codes "lock_immediately" ∷ codes "keep_unlocked" ∷ []

-- `{**asdict(defaults), **filtered}`: the known names, each with the value of the file if there is one.
abbrev pub or_value : Option Json → Json → Json
or_value none d = d
or_value (some v) d = v

abbrev pub overlay : Fields → Fields → Fields
overlay end raw = end
overlay (field k d ds) raw = field k (or_value (get k raw) d) (overlay ds raw)

-- `type(value) is type(default)`, for the three types of the defaults.
abbrev pub same_type : Json → Json → Bool
same_type (boolean a) (boolean b) = true
same_type (integer a) (integer b) = true
same_type (text a) (text b) = true
same_type a b = false

abbrev pub sanitize_types : Fields → Fields → Fields
sanitize_types (field k d ds) (field j v vs) =
    field j (if same_type d v then v else d) (sanitize_types ds vs)
sanitize_types ds vs = vs

abbrev pub is_one_of : Option Json → List Bytes → Bool
is_one_of (some (text s)) [] = false
is_one_of (some (text s)) (c ∷ cs) = same_bytes s c || is_one_of (some (text s)) cs
is_one_of other cs = false

-- `cfg.k = v`
abbrev pub assign : String → Json → Fields → Fields
assign k v end = end
assign k v (field j w fs) = if j =s= k then field j v fs else field j w (assign k v fs)

abbrev pub restrict : String → List Bytes → Json → Fields → Fields
restrict k choices d cfg = if is_one_of (get k cfg) choices then cfg else assign k d cfg

abbrev pub checked_settings : Fields → Fields
checked_settings cfg = restrict "usb_removal_action" usb_removal_choices (word "lock_immediately") (
    restrict "safety_guard_mode" safety_guard_choices (word "auto_high_confidence") (
      restrict "clipboard_timeout_key" clipboard_timeout_choices (word "30s")
        (restrict "theme" theme_choices (word "ash") cfg)))

-- A file that holds no JSON object has no `items`: an AttributeError.
unfoldable pub load_settings : Json → Try Fields
load_settings (object raw) = inr (checked_settings (sanitize_types defaults (overlay defaults raw)))
load_settings j = inl attribute_error

-- `asdict(cfg)`, which is what `save_settings` writes.
abbrev pub settings_dict : Fields → Json
settings_dict cfg = object cfg

abbrev seconds_of : Bytes → Option ℕ
seconds_of key =
    if same_bytes key (codes "never")
    then none
    else if same_bytes key (codes "15s")
    then some 15
    else if same_bytes key (codes "60s")
    then some 60
    else if same_bytes key (codes "5m")
    then some 300
    else some 30

-- `none` is no timeout.
unfoldable pub clipboard_timeout_seconds : Fields → Option ℕ
clipboard_timeout_seconds cfg = elim (get "clipboard_timeout_key" cfg) [
  | some (text key) ↦ seconds_of key
  | _ ↦ some 30
]

unfoldable pub effective_auto_lock_timeout_seconds : Fields → Option Json
effective_auto_lock_timeout_seconds cfg = elim (get "auto_lock_enabled" cfg) [
  | none ↦ none
  | some on ↦ if truth on then get "inactivity_timeout_seconds" cfg else some (count 0)
]
