-- ===== src/Generator/Template.antt =====
-- src/passman/core/generator/template_engine.py: templates with placeholders. The scan for braces
-- goes through the text once; what the code finds with `find` is collected on the way.
pub mod Printing
pub mod Tests
use ash_password_manager.Common.{
  ℕ, ◌-◌, ◌+◌, Bool, true, false, not, ◌&&◌, ◌||◌, Option, none, some, List, [], ◌∷◌, ◌++◌, all,
  elem, ◌==◌, Bytes, same_bytes, if◌then◌else◌, ◌⊎◌, inl, inr,
}
use ash_password_manager.Common.Chars.{codes, strip, is_upper, is_lower, is_digit}

pub data Name : Type 0 where
  username service_name : Name

pub data Token : Type 0 where
  literal : Bytes → Token
  placeholder : Name → Option Bytes → Token

pub data TemplateError : Type 0 where
  missing_close nested_open unexpected_close empty_name bad_name empty_fallback : TemplateError
  unknown_placeholder missing_value : TemplateError

pub record ResolveContext : Type 0 where
  pub user : Bytes
  pub service : Bytes

abbrev is_nil : Bytes → Bool
is_nil [] = true
is_nil (c ∷ cs) = false

-- `[A-Za-z_][A-Za-z0-9_]*` in full.
abbrev is_name_start : ℕ → Bool
is_name_start c = is_upper c || is_lower c || c == b'_'

abbrev is_name_char : ℕ → Bool
is_name_char c = is_name_start c || is_digit c

unfoldable pub is_name : Bytes → Bool
is_name [] = false
is_name (c ∷ cs) = is_name_start c && all is_name_char cs

-- `str.upper` on a name, which is ASCII.
abbrev upper_char : ℕ → ℕ
upper_char c = if is_lower c then c - 32 else c

abbrev upper : Bytes → Bytes
upper [] = []
upper (c ∷ cs) = upper_char c ∷ upper cs

-- `inner.partition("||")`, where there is one.
abbrev on_first : ℕ → Option (Bytes × Bytes) → Option (Bytes × Bytes)
on_first c none = none
on_first c (some (before, after)) = some (c ∷ before, after)

unfoldable pub partition : Bytes → Option (Bytes × Bytes)
partition [] = none
partition (c ∷ []) = none
partition (c ∷ d ∷ cs) =
    let rest = on_first c (partition (d ∷ cs)) in
    if c == b'|' && d == b'|' then some ([], cs) else rest

abbrev placeholder_name : Bytes → Option Name
placeholder_name name =
    if same_bytes (upper name) (codes "USERNAME")
    then some username
    else if same_bytes (upper name) (codes "SERVICE_NAME")
    then some service_name
    else none

abbrev known : Option Name → Option Bytes → TemplateError ⊎ Token
known none fallback = inl unknown_placeholder
known (some name) fallback = inr (placeholder name fallback)

abbrev is_empty_text : Option Bytes → Bool
is_empty_text none = false
is_empty_text (some text) = is_nil text

abbrev named : Bytes → Option Bytes → TemplateError ⊎ Token
named name fallback =
    if is_nil name
    then inl empty_name
    else if not (is_name name)
    then inl bad_name
    else if is_empty_text fallback
    then inl empty_fallback
    else known (placeholder_name name) fallback

abbrev parted : Bytes → Option (Bytes × Bytes) → TemplateError ⊎ Token
parted inner none = named (strip inner) none
parted inner (some (name, fallback)) = named (strip name) (some (strip fallback))

-- Both placeholders support a fallback, so its check never fails.
unfoldable pub parse_placeholder_body : Bytes → TemplateError ⊎ Token
unfolding is_name partition
parse_placeholder_body inner = parted inner (partition inner)

-- Outside a placeholder with the literal so far, or inside one with its text so far.
pub data Scan : Type 0 where
  outside inside : Bytes → Scan

abbrev pub after : List Token → TemplateError ⊎ List Token → TemplateError ⊎ List Token
after tokens (inl e) = inl e
after tokens (inr rest) = inr (tokens ++ rest)

abbrev pub flush : Bytes → List Token
flush [] = []
flush (c ∷ cs) = literal (c ∷ cs) ∷ []

abbrev pub with_token :
    TemplateError ⊎ Token → TemplateError ⊎ List Token → TemplateError ⊎ List Token
with_token (inl e) rest = inl e
with_token (inr token) rest = after (token ∷ []) rest

unfoldable pub parse_from : Scan → Bytes → TemplateError ⊎ List Token
parse_from (outside text) [] = inr (flush text)
parse_from (inside inner) [] = inl missing_close
parse_from (outside text) (c ∷ cs) =
    let opened = parse_from (inside []) cs in
    let more = parse_from (outside (text ++ c ∷ [])) cs in
    if c == b'{'
    then after (flush text) opened
    else if c == b'}'
    then inl unexpected_close
    else more
parse_from (inside inner) (c ∷ cs) =
    let rest = parse_from (outside []) cs in
    let more = parse_from (inside (inner ++ c ∷ [])) cs in
    if not (c == b'}')
    then more
    else if elem b'{' inner
    then inl nested_open
    else with_token (parse_placeholder_body inner) rest

unfoldable pub parse : Bytes → TemplateError ⊎ List Token
unfolding parse_from
parse template = parse_from (outside []) template

abbrev value_or : Bytes → Option Bytes → TemplateError ⊎ Bytes
value_or [] none = inl missing_value
value_or [] (some fallback) = inr fallback
value_or (c ∷ cs) fallback = inr (c ∷ cs)

abbrev resolve_token : ResolveContext → Token → TemplateError ⊎ Bytes
resolve_token ctx (literal text) = inr text
resolve_token ctx (placeholder username fallback) = value_or ctx.user fallback
resolve_token ctx (placeholder service_name fallback) = value_or ctx.service fallback

abbrev joined : TemplateError ⊎ Bytes → TemplateError ⊎ Bytes → TemplateError ⊎ Bytes
joined (inl e) rest = inl e
joined (inr text) (inl e) = inl e
joined (inr text) (inr rest) = inr (text ++ rest)

unfoldable pub resolve : List Token → ResolveContext → TemplateError ⊎ Bytes
resolve [] ctx = inr []
resolve (t ∷ tokens) ctx = joined (resolve_token ctx t) (resolve tokens ctx)

abbrev resolved : TemplateError ⊎ List Token → ResolveContext → TemplateError ⊎ Bytes
resolved (inl e) ctx = inl e
resolved (inr tokens) ctx = resolve tokens ctx

unfoldable pub generate : Bytes → Bytes → Bytes → TemplateError ⊎ Bytes
generate template user service =
    resolved (parse template) (record { user = user; service = service })
