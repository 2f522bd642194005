-- ===== src/Security/Tests.antt =====
-- Runs of the clipboard, the session and the strength estimate at concrete inputs.
use ash_password_manager.Common.{
  ℕ, true, false, none, some, [], ◌∷◌, ◌≡◌, refl, ◌↔◌, ◌⊎◌, Bytes, same_bytes, Any, ◌≤◌, ◌<◌, ◌++◌,
  length,
}
use ash_password_manager.Common.Chars.{codes}
use ash_password_manager.Security.Strength.{
  estimate_password_strength, count_character_classes, grade,
}
use ash_password_manager.Security.Strength.Growth.{estimate_grows}
use ash_password_manager.Security.Clipboard.{
  Desk, Timer, Tools, new_desk, copy, clear_now, clear_if_unchanged,
}
use ash_password_manager.Security.Clipboard.Ownership.{begin, copies, clears_own, ClearsOwn}
use ash_password_manager.Security.Clipboard.Clearing.{HasFailed, ClearsCopied}
use ash_password_manager.Security.Session.{Session, suspended, new_session, unlock, lock}
use ash_password_manager.Security.Session.Locking.{
  created, unlocks, locks, IsConsistent, Use-IsConsistent,
}

abbrev plain : Bytes → Bytes
plain bytes = bytes

abbrev working : Tools
working = record {
  available = true;
  copy_runs = true;
  left_by_copy = none;
  paste_runs = some true;
  clear_runs = true;
  cleared_anyway = false;
  written_between = none;
}

abbrev word : Bytes
word = 115 ∷ 51 ∷ []

-- The desk after a text has been copied for ten seconds.
abbrev copied_desk : Desk
copied_desk = (copy plain working word (some 10) (new_desk none)).1

abbrev ten_seconds : Timer
ten_seconds = record { generation = 1; digest = word }

timer_clears :
    ((clear_if_unchanged plain working ten_seconds copied_desk).contents ≡ none)
    × (copied_desk.contents ≡ some word)
unfolding copy new_desk clear_if_unchanged same_bytes
timer_clears = (refl, refl)

abbrev other : Bytes
other = codes "other"

clears_own_example :
    ((t : Timer)
      → Any (λ u. u ≡ t) copied_desk.started
      → ClearsOwn plain working copied_desk (clear_if_unchanged plain working t copied_desk))
    × ClearsOwn plain working copied_desk (clear_now plain working copied_desk)
    × ((t : Timer)
        → Any (λ u. u ≡ t) copied_desk.started
        → clear_if_unchanged plain working t (clear_now plain working copied_desk)
          ≡ clear_now plain working copied_desk)
    × (HasFailed working working
        ⊎ ClearsCopied plain working other
            (some 20)
            copied_desk
            (copy plain working other (some 20) copied_desk).1)
clears_own_example =
    clears_own plain working working other (some 20) (copies working word (some 10) (begin none))

abbrev opened : Session ℕ
opened = unlock 100 7 (new_session ℕ 60 (some (new_desk none)) true)

Use-IsConsistent_example : IsConsistent plain (lock plain working suspended opened) 1
Use-IsConsistent_example =
    Use-IsConsistent plain
      (locks working suspended (unlocks 100 7 (created 60 (new_desk none) true)))

-- Another program copies between the reading and the clearing, and what it has copied is lost.
abbrev interrupted : Tools
interrupted = record working { written_between = some (some other) }

lost_copy : (clear_now plain interrupted copied_desk).contents ≡ none
unfolding copy new_desk clear_now same_bytes
lost_copy = refl

estimate_grows_example :
    ((estimate_password_strength (codes "Tr0ub4dor")).score
      ≤ (estimate_password_strength (codes "Tr0ub4dor" ++ codes "&3xtra!Long")).score)
    × ((estimate_password_strength (codes "Tr0ub4dor")).score ≤ 4)
    × ((estimate_password_strength (codes "Tr0ub4dor")).score ≡ 0 ↔ length (codes "Tr0ub4dor") < 8)
estimate_grows_example = estimate_grows (codes "Tr0ub4dor") (codes "&3xtra!Long")

strong :
    estimate_password_strength (codes "Tr0ub4dor&3xtra!Long")
    ≡ record { score = 4; label = "Strong" }
unfolding estimate_password_strength grade count_character_classes
strong = refl
