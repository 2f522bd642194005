-- ===== src/Accounts.antt =====
-- src/passman/core/accounts/repository.py: searching and ranking the summaries of the accounts.
pub mod Ranking
pub mod Tests
use ash_password_manager.Common.{
  ℕ, Bool, true, false, not, ◌||◌, Option, none, some, List, [], ◌∷◌, map, keep, leb, Bytes,
  if◌then◌else◌,
}
use ash_password_manager.Common.Chars.{strip, is_infix}
use ash_password_manager.Vault.Models.{AccountSummary}
use ash_password_manager.Auth.Detection.{
  Confidence, high, low, unknown, DetectedContext, TextOps, match_confidence,
}

abbrev pub is_nil : Bytes → Bool
is_nil [] = true
is_nil (c ∷ cs) = false

abbrev pub mentions : TextOps → Bytes → AccountSummary → Bool
mentions ops q a = is_infix q (ops.lower a.display_name) || is_infix q (ops.lower a.service_name)

unfoldable pub search : TextOps → List AccountSummary → Bytes → List AccountSummary
search ops accounts query =
    let q = ops.lower (strip query) in if is_nil q then accounts else keep (mentions ops q) accounts

pub record RankedAccount : Type 0 where
  pub account : AccountSummary
  pub confidence : Confidence

abbrev pub order : Confidence → ℕ
order high = 0
order low = 1
order unknown = 2

-- `list.sort` by a key, which is stable.
abbrev pub insert_by : (RankedAccount → ℕ) → RankedAccount → List RankedAccount → List RankedAccount
insert_by key r [] = r ∷ []
insert_by key r (s ∷ rs) = if leb (key r) (key s) then r ∷ s ∷ rs else s ∷ insert_by key r rs

abbrev pub sort_by : (RankedAccount → ℕ) → List RankedAccount → List RankedAccount
sort_by key [] = []
sort_by key (r ∷ rs) = insert_by key r (sort_by key rs)

abbrev pub ids_or_none : Option (List Bytes) → List Bytes
ids_or_none none = []
ids_or_none (some ids) = ids

abbrev pub place : RankedAccount → ℕ
place r = order r.confidence

module _ (ops : TextOps) (context : DetectedContext)
    (identifiers : Bytes → Option (List Bytes)) where
  abbrev pub ranked : AccountSummary → RankedAccount
  ranked a = record {
    account = a;
    confidence = match_confidence ops context (ids_or_none (identifiers a.entry_uuid));
  }

  unfoldable pub rank_by_context : List AccountSummary → List RankedAccount
  rank_by_context accounts = sort_by place (map ranked accounts)

abbrev pub is_high : Confidence → Bool
is_high high = true
is_high _ = false

abbrev pub account_of : RankedAccount → AccountSummary
account_of r = r.account

unfoldable pub suggested_and_other : List RankedAccount → List AccountSummary × List AccountSummary
suggested_and_other rs = (
  map account_of (keep (λ r. is_high r.confidence) rs),
  map account_of (keep (λ r. not (is_high r.confidence)) rs),
)
