-- ===== src/Security/Clipboard/Clearing.antt =====
-- src/passman/core/security/clipboard.py: what has been copied is cleared, if the commands work.
use ash_password_manager.Common.{
  ℕ, suc, sym, subst, Bool, true, false, Option, none, some, ◌≡◌, ◌≢◌, refl, ◌⊎◌, inl, inr, Bytes,
  eq→same_bytes, eqb_refl, Any, Bool-cases,
}
use ash_password_manager.Security.Clipboard.{
  Desk, Timer, Tools, pasted, copy_done, clear_expected, is_positive, copy, clear_owned, clear_now,
  clear_if_unchanged,
}

-- A command has failed: one of the copying, or one of the clearing later.
abbrev pub HasFailed : Tools → Tools → Type 0
HasFailed tools later =
    (tools.available ≡ false)
    ⊎ (tools.copy_runs ≡ false)
    ⊎ (later.paste_runs ≢ some true)
    ⊎ (later.clear_runs ≡ false)

module _ (sha256 : Bytes → Bytes) where
  -- The timer that a copy starts.
  abbrev pub timer_of : Bytes → Desk → Timer
  timer_of text d = record { generation = suc d.generation; digest = sha256 text }

  -- After a text has been copied, `clear_now` empties the clipboard, and so does the timer, if there is one.
  abbrev pub ClearsCopied : Tools → Bytes → Option ℕ → Desk → Desk → Type 0
  ClearsCopied later text timeout d d' =
      ((clear_now sha256 later d').contents ≡ none)
      × (((is_positive timeout ≡ false) × (d'.timer ≡ none))
          ⊎ ((d'.timer ≡ some (timer_of text d))
              × Any (λ u. u ≡ timer_of text d) d'.started
              × ((clear_if_unchanged sha256 later (timer_of text d) d').contents ≡ none)))

  paste_cases : (o : Option Bool) → (o ≡ some true) ⊎ (o ≢ some true)
  paste_cases none = inr (λ e. cc e)
  paste_cases (some true) = inl refl
  paste_cases (some false) = inr (λ e. cc e)

  -- The command works, and the clipboard holds the text.
  clear_owned-none :
      (later : Tools) (text : Bytes) (d : Desk)
      → later.paste_runs ≡ some true
      → later.clear_runs ≡ true
      → d.contents ≡ some text
      → (clear_owned sha256 later (sha256 text) d).contents ≡ none
  unfolding clear_owned pasted
  clear_owned-none later text d pasting clearing held =
      rw (pasting, held, eq→same_bytes (sha256 text) (sha256 text) refl, clearing) refl

  clear_now-none :
      (later : Tools) (text : Bytes) (d : Desk)
      → later.paste_runs ≡ some true
      → later.clear_runs ≡ true
      → d.expected_digest ≡ some (sha256 text)
      → d.contents ≡ some text
      → (clear_now sha256 later d).contents ≡ none
  unfolding clear_now clear_expected
  clear_now-none later text d pasting clearing expected held =
      let d' = record d { timer = none; generation = suc d.generation } in
      subst (λ o. (clear_expected sha256 later o d').contents ≡ none) (sym expected)
        (clear_owned-none later text d' pasting clearing held)

  timer-none :
      (later : Tools) (text : Bytes) (t : Timer) (d : Desk)
      → later.paste_runs ≡ some true
      → later.clear_runs ≡ true
      → t.generation ≡ d.generation
      → t.digest ≡ sha256 text
      → d.contents ≡ some text
      → (clear_if_unchanged sha256 later t d).contents ≡ none
  unfolding clear_if_unchanged
  timer-none later text t d pasting clearing now of_text held =
      rw (now, eqb_refl d.generation, of_text) (clear_owned-none later text d pasting clearing held)

  copied_lem :
      (tools later : Tools) (text : Bytes) (timeout : Option ℕ) (d : Desk)
      → tools.available ≡ true
      → tools.copy_runs ≡ true
      → later.paste_runs ≡ some true
      → later.clear_runs ≡ true
      → ClearsCopied later text timeout d (copy sha256 tools text timeout d).1
  unfolding copy copy_done
  copied_lem tools later text timeout d a b pasting clearing =
      elim (Bool-cases (is_positive timeout)) [
        | inl c ↦
            rw (a, b, c)
              (
                clear_now-none later text _ pasting clearing refl refl,
                inr (refl, inl refl, timer-none later text _ _ pasting clearing refl refl refl),
              )
        | inr c ↦
            rw (a, b, c) (clear_now-none later text _ pasting clearing refl refl, inl (refl, refl))
      ]

  pub copied_or_failed :
      (tools later : Tools) (text : Bytes) (timeout : Option ℕ) (d : Desk)
      → HasFailed tools later
        ⊎ ClearsCopied later text timeout d (copy sha256 tools text timeout d).1
  copied_or_failed tools later text timeout d = elim (Bool-cases tools.available) [
    | inr a ↦ inl (inl a)
    | inl a ↦ elim (Bool-cases tools.copy_runs) [
      | inr b ↦ inl (inr (inl b))
      | inl b ↦ elim (paste_cases later.paste_runs) [
        | inr p ↦ inl (inr (inr (inl p)))
        | inl p ↦ elim (Bool-cases later.clear_runs) [
          | inr c ↦ inl (inr (inr (inr c)))
          | inl c ↦ inr (copied_lem tools later text timeout d a b p c)
        ]
      ]
    ]
  ]
