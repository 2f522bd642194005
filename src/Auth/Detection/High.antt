-- ===== src/Auth/Detection/High.antt =====
-- src/passman/core/auth/detection.py: when the confidence is high.
use ash_password_manager.Common.{
  Bool, true, false, ◌&&◌, Option, none, some, List, [], ◌∷◌, ◌≡◌, ◌≢◌, refl, ◌↔◌, inl, inr, Bytes,
  same_bytes→eq, eq→same_bytes, keep, any, Any, arith,
}
use mathlib.Core.Bool.{false≢true}
use ash_password_manager.Auth.Detection.{
  DetectedContext, high, TextOps, is_usable, is_regex, is_exact, match_confidence, given, text_of,
  is_nil,
}

module _ (ops : TextOps) where
  -- The identifier has a character that is no space, is no pattern, and is the window class up to case.
  abbrev pub Names : Bytes → Bytes → Type 0
  Names app p = (is_usable p ≡ true) × (is_regex p ≡ false) × (ops.casefold p ≡ ops.casefold app)

  is_exact_iff :
      (app p : Bytes)
      → (is_exact ops app p ≡ true) ↔ ((is_regex p ≡ false) × (ops.casefold p ≡ ops.casefold app))
  unfolding is_exact
  is_exact_iff app p = (
    λ h. ground (arith, same_bytes→eq (ops.casefold p) (ops.casefold app)),
    λ h. ground (arith, eq→same_bytes (ops.casefold p) (ops.casefold app)),
  )

  any_exact→Any :
      (app : Bytes) (ids : List Bytes)
      → any (is_exact ops app) (keep is_usable ids) ≡ true
      → Any (Names app) ids
  any_exact→Any app [] h = absurd (false≢true h)
  any_exact→Any app (p ∷ ids) h = ground (arith, is_exact_iff app p, any_exact→Any app ids)

  Any→any_exact :
      (app : Bytes) (ids : List Bytes)
      → Any (Names app) ids
      → any (is_exact ops app) (keep is_usable ids) ≡ true
  Any→any_exact app [] h = absurd h
  Any→any_exact app (p ∷ ids) (inl n) = ground (arith, is_exact_iff app p)
  Any→any_exact app (p ∷ ids) (inr m) = ground (arith, Any→any_exact app ids m)

  abbrev has_exact : Option Bytes → List Bytes → Bool
  has_exact app ids = given app && any (is_exact ops (text_of app)) (keep is_usable ids)

  high_test :
      (context : DetectedContext) (ids : List Bytes)
      → match_confidence ops context ids ≡ high
      → has_exact context.app_id ids ≡ true
  unfolding match_confidence
  high_test context ids h = ground arith

  any-not_nil : (p : Bytes → Bool) (ids : List Bytes) → any p ids ≡ true → is_nil ops ids ≡ false
  any-not_nil p [] h = absurd (false≢true h)
  any-not_nil p (x ∷ ids) h = refl

  test_high :
      (context : DetectedContext) (ids : List Bytes)
      → has_exact context.app_id ids ≡ true
      → match_confidence ops context ids ≡ high
  unfolding match_confidence
  test_high context ids e =
      ground (arith, any-not_nil (is_exact ops (text_of context.app_id)) (keep is_usable ids))

  named :
      (app : Option Bytes) (ids : List Bytes)
      → has_exact app ids ≡ true
      → (a : Bytes) × (app ≡ some a) × (a ≢ []) × Any (Names a) ids
  named none ids h = absurd (false≢true h)
  named (some []) ids h = absurd (false≢true h)
  named (some (c ∷ cs)) ids h = (c ∷ cs, refl, λ e. cc, any_exact→Any (c ∷ cs) ids h)

  exact :
      (app : Bytes) (ids : List Bytes)
      → app ≢ []
      → Any (Names app) ids
      → has_exact (some app) ids ≡ true
  exact [] ids ne m = absurd (ne refl)
  exact (c ∷ cs) ids ne m = Any→any_exact (c ∷ cs) ids m

  -- The confidence is high exactly if the window has a class, and an identifier of the account that is
  -- not blank and no pattern is that class up to case. Neither the title of the window nor a part of
  -- the class can make it high.
  pub match_confidence-high_iff :
      (context : DetectedContext) (ids : List Bytes)
      → (match_confidence ops context ids ≡ high)
        ↔ ((app : Bytes) × (context.app_id ≡ some app) × (app ≢ []) × Any (Names app) ids)
  match_confidence-high_iff context ids = (
    λ h. named context.app_id ids (high_test context ids h),
    λ (app, e, ne, m). test_high context ids (rw e (exact app ids ne m)),
  )
