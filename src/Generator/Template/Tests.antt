-- ===== src/Generator/Template/Tests.antt =====
-- A template with a literal and a fallback, at concrete inputs.
use ash_password_manager.Common.{none, some, List, [], ◌∷◌, same_bytes, inl, inr, ◌≡◌, refl}
use ash_password_manager.Common.Chars.{codes, strip}
use ash_password_manager.Generator.Template.{
  Token, literal, placeholder, username, service_name, unexpected_close, nested_open, parse,
  generate, resolve, parse_placeholder_body, is_name, partition,
}
use ash_password_manager.Generator.Template.Printing.{print, parse-print}

abbrev tokens : List Token
tokens =
    literal (codes "x-")
    ∷ placeholder username (some (codes "ann"))
    ∷ placeholder service_name none
    ∷ []

generated :
    generate (codes "x-{username || ann}{ Service_Name }") [] (codes "mail")
    ≡ inr (codes "x-annmail")
unfolding generate parse parse_placeholder_body is_name partition strip same_bytes resolve
generated = refl

stray_close : parse (codes "a}") ≡ inl unexpected_close
unfolding parse
stray_close = refl

nested : parse (codes "{a{b}") ≡ inl nested_open
unfolding parse
nested = refl

parse-print_example : parse (print tokens) ≡ inr tokens
unfolding strip same_bytes
parse-print_example = parse-print tokens (
  refl,
  (λ h. cc h),
  ((refl, refl), ((refl, refl), tt)),
  (((λ h. cc h), refl, ((refl, refl), ((refl, refl), ((refl, refl), tt)))), (tt, tt)),
)
