-- ===== src/Accounts/Ranking.antt =====
-- src/passman/core/accounts/repository.py: the order of a ranked list, and its two parts.
use ash_password_manager.Common.{
  ℕ, suc, ◌≤◌, ◌<◌, Bool, true, false, not, Option, List, [], ◌∷◌, ◌++◌, map, keep, Bytes, inl, inr,
  Bool-cases, All, All-append, ◌≡◌, refl, sym, ap, ◌∙◌, arith, append-nil,
}
use ash_password_manager.Vault.Models.{AccountSummary}
use ash_password_manager.Auth.Detection.{Confidence, high, low, unknown, DetectedContext, TextOps}
use ash_password_manager.Accounts.{
  RankedAccount, order, place, insert_by, sort_by, ranked, rank_by_context, is_high, account_of,
  suggested_and_other,
}

abbrev pub is_low : Confidence → Bool
is_low low = true
is_low _ = false

abbrev pub is_unknown : Confidence → Bool
is_unknown unknown = true
is_unknown _ = false

-- The ranked accounts of one confidence, in their order.
abbrev pub highs : List RankedAccount → List RankedAccount
highs rs = keep (λ r. is_high r.confidence) rs

abbrev pub lows : List RankedAccount → List RankedAccount
lows rs = keep (λ r. is_low r.confidence) rs

abbrev pub unknowns : List RankedAccount → List RankedAccount
unknowns rs = keep (λ r. is_unknown r.confidence) rs

-- Accounts of a smaller key are passed, and one of a key that is not smaller stops.
insert-append :
    (r : RankedAccount) (xs ys : List RankedAccount)
    → All (λ s. place s < place r) xs
    → insert_by place r (xs ++ ys) ≡ xs ++ insert_by place r ys
insert-append r [] ys h = refl
insert-append r (x ∷ xs) ys (lt, h) = ground (arith, insert-append r xs ys h)

insert-stop :
    (r : RankedAccount) (ys : List RankedAccount)
    → All (λ s. place r ≤ place s) ys
    → insert_by place r ys ≡ r ∷ ys
insert-stop r [] h = refl
insert-stop r (y ∷ ys) (le, h) = ground arith

All-keep :
    (p : RankedAccount → Bool) (Q : RankedAccount → Type 0) (rs : List RankedAccount)
    → ((s : RankedAccount) → p s ≡ true → Q s)
    → All Q (keep p rs)
All-keep p Q [] f = tt
All-keep p Q (r ∷ rs) f = elim (Bool-cases (p r)) [
  | inl hit ↦ rw hit (f r hit, All-keep p Q rs f)
  | inr miss ↦ rw miss (All-keep p Q rs f)
]

high_place : (s : RankedAccount) → is_high s.confidence ≡ true → place s ≡ 0
high_place s h = by s.confidence h
  where
    by : (c : Confidence) → is_high c ≡ true → order c ≡ 0
    by high h = refl
    by low h = absurd (cc h)
    by unknown h = absurd (cc h)

low_place : (s : RankedAccount) → is_low s.confidence ≡ true → place s ≡ 1
low_place s h = by s.confidence h
  where
    by : (c : Confidence) → is_low c ≡ true → order c ≡ 1
    by high h = absurd (cc h)
    by low h = refl
    by unknown h = absurd (cc h)

unknown_place : (s : RankedAccount) → is_unknown s.confidence ≡ true → place s ≡ 2
unknown_place s h = by s.confidence h
  where
    by : (c : Confidence) → is_unknown c ≡ true → order c ≡ 2
    by high h = absurd (cc h)
    by low h = absurd (cc h)
    by unknown h = refl

-- Where one account goes.
insert_at_high :
    (r : RankedAccount) (hs ls us : List RankedAccount)
    → place r ≡ 0
    → insert_by place r (hs ++ (ls ++ us)) ≡ r ∷ hs ++ (ls ++ us)
insert_at_high r hs ls us h = insert-stop r (hs ++ (ls ++ us)) (all_at (hs ++ (ls ++ us)))
  where
    all_at : (xs : List RankedAccount) → All (λ s. place r ≤ place s) xs
    all_at [] = tt
    all_at (x ∷ xs) = (omega (arith, h), all_at xs)

three_parts :
    (c : Confidence) (r : RankedAccount) (rs : List RankedAccount)
    → r.confidence ≡ c
    → insert_by place r (highs rs ++ (lows rs ++ unknowns rs))
      ≡ highs (r ∷ rs) ++ (lows (r ∷ rs) ++ unknowns (r ∷ rs))
three_parts high r rs h =
    insert_at_high r (highs rs) (lows rs) (unknowns rs) (ap order h) ∙ sym (rw h refl)
three_parts low r rs h =
    insert-append r (highs rs) (lows rs ++ unknowns rs) (
      All-keep (λ s. is_high s.confidence) (λ s. place s < place r) rs
        (λ s k. omega (arith, high_place s k, ap order h)))
    ∙ ap (λ xs. highs rs ++ xs)
        (insert-stop r (lows rs ++ unknowns rs) (
          All-append (λ s. place r ≤ place s) (lows rs) (unknowns rs)
            (All-keep (λ s. is_low s.confidence) (λ s. place r ≤ place s) rs
              (λ s k. omega (arith, low_place s k, ap order h)))
            (All-keep (λ s. is_unknown s.confidence) (λ s. place r ≤ place s) rs
              (λ s k. omega (arith, unknown_place s k, ap order h)))))
    ∙ sym (rw h refl)
three_parts unknown r rs h =
    insert-append r (highs rs) (lows rs ++ unknowns rs) (
      All-keep (λ s. is_high s.confidence) (λ s. place s < place r) rs
        (λ s k. omega (arith, high_place s k, ap order h)))
    ∙ ap (λ xs. highs rs ++ xs)
        (insert-append r (lows rs) (unknowns rs) (
            All-keep (λ s. is_low s.confidence) (λ s. place s < place r) rs
              (λ s k. omega (arith, low_place s k, ap order h)))
          ∙ ap (λ xs. lows rs ++ xs)
              (insert-stop r (unknowns rs) (
                All-keep (λ s. is_unknown s.confidence) (λ s. place r ≤ place s) rs
                  (λ s k. omega (arith, unknown_place s k, ap order h)))))
    ∙ sym (rw h refl)

sort-parts : (rs : List RankedAccount) → sort_by place rs ≡ highs rs ++ (lows rs ++ unknowns rs)
sort-parts [] = refl
sort-parts (r ∷ rs) = ap (insert_by place r) (sort-parts rs) ∙ three_parts r.confidence r rs refl

-- Keeping one of the parts again.
abbrev fits : RankedAccount → Bool
fits r = is_high r.confidence

abbrev misses : RankedAccount → Bool
misses r = not (is_high r.confidence)

keep-append :
    (p : RankedAccount → Bool) (xs ys : List RankedAccount)
    → keep p (xs ++ ys) ≡ keep p xs ++ keep p ys
keep-append p [] ys = refl
keep-append p (x ∷ xs) ys = elim (Bool-cases (p x)) [
  | inl hit ↦ rw hit (ap (λ zs. x ∷ zs) (keep-append p xs ys))
  | inr miss ↦ rw miss (keep-append p xs ys)
]

keep-All :
    (p : RankedAccount → Bool) (xs : List RankedAccount) → All (λ r. p r ≡ true) xs → keep p xs ≡ xs
keep-All p [] h = refl
keep-All p (x ∷ xs) (hit, h) = rw hit (ap (λ zs. x ∷ zs) (keep-All p xs h))

keep-none :
    (p : RankedAccount → Bool) (xs : List RankedAccount)
    → All (λ r. p r ≡ false) xs
    → keep p xs ≡ []
keep-none p [] h = refl
keep-none p (x ∷ xs) (miss, h) = rw miss (keep-none p xs h)

not_high : (s : RankedAccount) (n : ℕ) → place s ≡ suc n → is_high s.confidence ≡ false
not_high s n h = by s.confidence h
  where
    by : (c : Confidence) → order c ≡ suc n → is_high c ≡ false
    by high k = absurd (omega (arith, k))
    by low k = refl
    by unknown k = refl

others-miss :
    (rs : List RankedAccount) → All (λ s. is_high s.confidence ≡ false) (lows rs ++ unknowns rs)
others-miss rs =
    All-append (λ s. is_high s.confidence ≡ false) (lows rs) (unknowns rs)
      (All-keep (λ s. is_low s.confidence) (λ s. is_high s.confidence ≡ false) rs
        (λ s k. not_high s 0 (low_place s k)))
      (All-keep (λ s. is_unknown s.confidence) (λ s. is_high s.confidence ≡ false) rs
        (λ s k. not_high s 1 (unknown_place s k)))

keep-highs : (rs : List RankedAccount) → keep fits (highs rs ++ (lows rs ++ unknowns rs)) ≡ highs rs
keep-highs rs =
    keep-append fits (highs rs) (lows rs ++ unknowns rs)
    ∙ rw
        (
          keep-All fits (highs rs) (All-keep fits (λ s. fits s ≡ true) rs (λ s k. k)),
          keep-none fits (lows rs ++ unknowns rs) (others-miss rs),
        )
        (append-nil (highs rs))

negated : (b : Bool) → b ≡ true → not b ≡ false
negated true h = refl
negated false h = sym h

affirmed : (b : Bool) → b ≡ false → not b ≡ true
affirmed true h = sym h
affirmed false h = refl

All-map :
    (P Q : RankedAccount → Type 0) (xs : List RankedAccount)
    → ((r : RankedAccount) → P r → Q r)
    → All P xs
    → All Q xs
All-map P Q [] f h = tt
All-map P Q (x ∷ xs) f h = (f x h.0, All-map P Q xs f h.1)

keep-others :
    (rs : List RankedAccount)
    → keep misses (highs rs ++ (lows rs ++ unknowns rs)) ≡ lows rs ++ unknowns rs
keep-others rs =
    keep-append misses (highs rs) (lows rs ++ unknowns rs)
    ∙ rw
        (
          keep-none misses (highs rs)
              (All-keep fits (λ s. misses s ≡ false) rs (λ s k. negated (fits s) k)),
          keep-All misses (lows rs ++ unknowns rs) (
              All-map (λ s. fits s ≡ false) (λ s. misses s ≡ true) (lows rs ++ unknowns rs)
                (λ s k. affirmed (fits s) k) (others-miss rs)),
        )
        refl

-- A ranked list is the accounts that the window fits best, then those that it may fit, then the rest,
-- each part in the order of the accounts, and no account is dropped or repeated. The first part is what
-- is suggested, and the other two together, in the same order, are the others.
pub rank_by_context_lem :
    (ops : TextOps) (context : DetectedContext) (identifiers : Bytes → Option (List Bytes))
    (accounts : List AccountSummary)
    → let scored = map (ranked ops context identifiers) accounts in
      let result = rank_by_context ops context identifiers accounts in
      (result ≡ highs scored ++ (lows scored ++ unknowns scored))
      × (suggested_and_other result
          ≡ (map account_of (highs scored), map account_of (lows scored ++ unknowns scored)))
unfolding rank_by_context suggested_and_other
rank_by_context_lem ops context identifiers accounts =
    let scored = map (ranked ops context identifiers) accounts in
    let parts = sort-parts scored in
    (
      parts,
      ap (λ rs. (map account_of (keep fits rs), map account_of (keep misses rs))) parts
          ∙ rw (keep-highs scored, keep-others scored) refl,
    )
