-- ===== src/Settings/Tests.antt =====
-- Settings files at concrete inputs.
use ash_password_manager.Common.{true, some, same_bytes, ◌≡◌, refl, inl, inr}
use ash_password_manager.Common.Chars.{codes}
use ash_password_manager.Common.Json.{
  Fields, boolean, text, array, nil, object, field, end, get, attribute_error,
}
use ash_password_manager.Settings.{
  defaults, overlay, sanitize_types, checked_settings, load_settings, settings_dict,
  clipboard_timeout_seconds,
}
use ash_password_manager.Settings.Validity.{
  IsValid, load_settings-IsValid, checked-IsValid, sanitize_types-WellTyped,
}
use ash_password_manager.Settings.Survival.{load_settings-settings_dict}

-- A file with a theme, a count that is no number and an unknown name.
abbrev edited_file : Fields
edited_file =
    field "theme" (text (codes "dark"))
      (field "typing_delay_ms" (text (codes "fast")) (field "zoom" (boolean true) end))

abbrev edited_settings : Fields
edited_settings = checked_settings (sanitize_types defaults (overlay defaults edited_file))

load_settings-IsValid_example :
    (cfg : Fields) × (load_settings (object edited_file) ≡ inr cfg) × IsValid cfg
load_settings-IsValid_example = load_settings-IsValid edited_file

edited_settings-IsValid : IsValid edited_settings
edited_settings-IsValid =
    checked-IsValid (sanitize_types defaults (overlay defaults edited_file))
      (sanitize_types-WellTyped defaults edited_file refl)

load_settings-settings_dict_example :
    load_settings (settings_dict edited_settings) ≡ inr edited_settings
load_settings-settings_dict_example =
    load_settings-settings_dict edited_settings edited_settings-IsValid

theme_is_kept : get "theme" edited_settings ≡ some (text (codes "dark"))
unfolding same_bytes
theme_is_kept = refl

delay_is_default : get "typing_delay_ms" edited_settings ≡ get "typing_delay_ms" defaults
unfolding same_bytes
delay_is_default = refl

default_timeout : clipboard_timeout_seconds defaults ≡ some 30
unfolding clipboard_timeout_seconds same_bytes
default_timeout = refl

list_is_an_error : load_settings (array nil) ≡ inl attribute_error
unfolding load_settings
list_is_an_error = refl
