-- ===== src/Generator/Template/Printing.antt =====
-- src/passman/core/generator/template_engine.py: parsing gives back what is written.
use ash_password_manager.Common.{
  Bool, true, false, Option, none, some, List, [], ◌∷◌, ◌++◌, append_assoc, append-nil, elem, ◌==◌,
  Bytes, same_bytes, ◌⊎◌, inl, inr, ◌≡◌, ◌≢◌, refl, sym, ap, ◌∙◌, arith, All,
}
use ash_password_manager.Common.Chars.{codes, strip, drop_space, is_space}
use ash_password_manager.Generator.Template.{
  Name, username, service_name, Token, literal, placeholder, outside, inside, after, flush,
  with_token, parse_from, parse, parse_placeholder_body, partition, is_name,
}

abbrev pub name_text : Name → Bytes
name_text username = codes "USERNAME"
name_text service_name = codes "SERVICE_NAME"

abbrev pub body_text : Name → Option Bytes → Bytes
body_text name none = name_text name
body_text name (some fallback) = name_text name ++ b'|' ∷ b'|' ∷ fallback

abbrev pub print : List Token → Bytes
print [] = []
print (literal text ∷ tokens) = text ++ print tokens
print (placeholder name fallback ∷ tokens) = b'{' ∷ body_text name fallback ++ b'}' ∷ print tokens

-- No brace.
abbrev pub IsPlain : Bytes → Type 0
IsPlain text = All (λ c. ((c == b'{') ≡ false) × ((c == b'}') ≡ false)) text

-- A fallback as the parser returns it.
abbrev pub IsFallback : Option Bytes → Type 0
IsFallback none = Unit
IsFallback (some text) = (text ≢ []) × (strip text ≡ text) × IsPlain text

-- Literals are not empty and have no brace, and none follows another.
abbrev pub IsTemplate : Bool → List Token → Type 0
IsTemplate b [] = Unit
IsTemplate after_literal (literal text ∷ tokens) =
    (after_literal ≡ false) × (text ≢ []) × IsPlain text × IsTemplate true tokens
IsTemplate after_literal (placeholder name fallback ∷ tokens) =
    IsFallback fallback × IsTemplate false tokens

outside-append :
    (text lit rest : Bytes)
    → IsPlain text
    → parse_from (outside lit) (text ++ rest) ≡ parse_from (outside (lit ++ text)) rest
unfolding parse_from
outside-append [] lit rest h = ap (λ l. parse_from (outside l) rest) (sym (append-nil lit))
outside-append (c ∷ cs) lit rest ((no_open, no_close), h) =
    rw (no_open, no_close)
      (outside-append cs (lit ++ c ∷ []) rest h
        ∙ ap (λ l. parse_from (outside l) rest) (append_assoc lit (c ∷ []) cs))

inside-append :
    (text inner rest : Bytes)
    → IsPlain text
    → parse_from (inside inner) (text ++ rest) ≡ parse_from (inside (inner ++ text)) rest
unfolding parse_from
inside-append [] inner rest h = ap (λ l. parse_from (inside l) rest) (sym (append-nil inner))
inside-append (c ∷ cs) inner rest ((no_open, no_close), h) = rw no_close (
    inside-append cs (inner ++ c ∷ []) rest h
    ∙ ap (λ l. parse_from (inside l) rest) (append_assoc inner (c ∷ []) cs))

body :
    (name : Name) (fallback : Option Bytes)
    → IsFallback fallback
    → parse_placeholder_body (body_text name fallback) ≡ inr (placeholder name fallback)
unfolding parse_placeholder_body partition is_name strip drop_space is_space same_bytes
body username none h = refl
body service_name none h = refl
body username (some []) (ne, s, p) = absurd (ne refl)
body username (some (c ∷ cs)) (ne, s, p) = rw s refl
body service_name (some []) (ne, s, p) = absurd (ne refl)
body service_name (some (c ∷ cs)) (ne, s, p) = rw s refl

IsPlain-append : (xs ys : Bytes) → IsPlain xs → IsPlain ys → IsPlain (xs ++ ys)
IsPlain-append [] ys h k = k
IsPlain-append (x ∷ xs) ys h k = (h.0, IsPlain-append xs ys h.1 k)

name_text-IsPlain : (name : Name) → IsPlain (name_text name)
name_text-IsPlain username = ground arith
name_text-IsPlain service_name = ground arith

body_text-IsPlain :
    (name : Name) (fallback : Option Bytes)
    → IsFallback fallback
    → IsPlain (body_text name fallback)
body_text-IsPlain name none h = name_text-IsPlain name
body_text-IsPlain name (some text) h =
    IsPlain-append (name_text name) (b'|' ∷ b'|' ∷ text) (name_text-IsPlain name)
      ((refl, refl), ((refl, refl), h.2))

elem-IsPlain : (text : Bytes) → IsPlain text → elem b'{' text ≡ false
elem-IsPlain [] h = refl
elem-IsPlain (c ∷ cs) ((no_open, no_close), h) = ground (arith, elem-IsPlain cs h)

-- Closing a placeholder.
closes :
    (name : Name) (fallback : Option Bytes) (rest : Bytes)
    → IsFallback fallback
    → parse_from (inside (body_text name fallback)) (b'}' ∷ rest)
      ≡ with_token (inr (placeholder name fallback)) (parse_from (outside []) rest)
unfolding parse_from
closes name fallback rest h =
    rw
      (
        elem-IsPlain (body_text name fallback) (body_text-IsPlain name fallback h),
        body name fallback h,
      )
      refl

-- Opening one, after a literal.
opens :
    (name : Name) (fallback : Option Bytes) (text rest : Bytes)
    → IsFallback fallback
    → parse_from (outside text) (b'{' ∷ body_text name fallback ++ b'}' ∷ rest)
      ≡ after
          (flush text)
          (with_token (inr (placeholder name fallback)) (parse_from (outside []) rest))
unfolding parse_from
opens name fallback text rest h = ap (after (flush text)) (
    inside-append (body_text name fallback) [] (b'}' ∷ rest) (body_text-IsPlain name fallback h)
    ∙ closes name fallback rest h)

nothing_pending : (b : Bool) (text : Bytes) → (b ≡ true) ⊎ (text ≡ []) → b ≡ false → text ≡ []
nothing_pending b text (inl h) fresh = absurd (cc (h, fresh))
nothing_pending b text (inr h) fresh = h

flush-literal : (text : Bytes) → text ≢ [] → flush text ≡ literal text ∷ []
flush-literal [] ne = absurd (ne refl)
flush-literal (c ∷ cs) ne = refl

-- With a literal pending, which only stands before tokens that may follow one.
pending :
    (after_literal : Bool) (text : Bytes) (tokens : List Token)
    → (after_literal ≡ true) ⊎ (text ≡ [])
    → IsTemplate after_literal tokens
    → parse_from (outside text) (print tokens) ≡ inr (flush text ++ tokens)
unfolding parse_from
pending b text [] p h = ap inr (sym (append-nil (flush text)))
pending b text (literal t ∷ tokens) p (fresh, ne, plain, h) =
    let e = nothing_pending b text p fresh in
    outside-append t text (print tokens) plain
    ∙ pending true (text ++ t) tokens (inl refl) h
    ∙ ap (λ x. inr (flush (x ++ t) ++ tokens)) e
    ∙ ap (λ f. inr (f ++ tokens)) (flush-literal t ne)
    ∙ sym (ap (λ x. inr (flush x ++ literal t ∷ tokens)) e)
pending b text (placeholder name fallback ∷ tokens) p (f, h) =
    opens name fallback text (print tokens) f
    ∙ ap (λ r. after (flush text) (with_token (inr (placeholder name fallback)) r))
        (pending false [] tokens (inr refl) h)

-- Tokens whose literals are not empty, have no brace and do not follow each other, and whose fallbacks
-- are not empty, stripped and without a brace, are written with `{NAME}` and `{NAME||fallback}` to a
-- text that is parsed to the same tokens.
pub parse-print :
    (tokens : List Token) → IsTemplate false tokens → parse (print tokens) ≡ inr tokens
unfolding parse
parse-print tokens h = pending false [] tokens (inr refl) h
