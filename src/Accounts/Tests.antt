-- ===== src/Accounts/Tests.antt =====
-- Two accounts and a window, at concrete inputs.
use ash_password_manager.Common.{
  true, false, Option, none, some, List, [], ◌∷◌, ◌++◌, map, Bytes, ◌≡◌,
}
use ash_password_manager.Common.Chars.{codes}
use ash_password_manager.Vault.Models.{AccountSummary}
use ash_password_manager.Auth.Detection.{DetectedContext, TextOps}
use ash_password_manager.Accounts.{ranked, rank_by_context, account_of, suggested_and_other}
use ash_password_manager.Accounts.Ranking.{highs, lows, unknowns, rank_by_context_lem}

abbrev plain : TextOps
plain = record { lower = λ t. t; casefold = λ t. t; search = λ p t. none }

abbrev browser : DetectedContext
browser = record { app_id = some (codes "firefox"); window_title = none; window_id = none }

abbrev named : Bytes → AccountSummary
named uuid = record {
  entry_uuid = uuid;
  display_name = uuid;
  service_name = uuid;
  icon_ref = none;
  tags = [];
  has_totp = false;
  has_recovery_codes = false;
  has_username = true;
  has_password = true;
  category = codes "logins";
}

abbrev accounts : List AccountSummary
accounts = named (codes "mail") ∷ named (codes "shop") ∷ []

abbrev identifiers : Bytes → Option (List Bytes)
identifiers uuid = some (codes "firefox" ∷ [])

rank_by_context_lem_example :
    let scored = map (ranked plain browser identifiers) accounts in
    let result = rank_by_context plain browser identifiers accounts in
    (result ≡ highs scored ++ (lows scored ++ unknowns scored))
    × (suggested_and_other result
        ≡ (map account_of (highs scored), map account_of (lows scored ++ unknowns scored)))
rank_by_context_lem_example = rank_by_context_lem plain browser identifiers accounts
