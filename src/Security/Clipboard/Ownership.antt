-- ===== src/Security/Clipboard/Ownership.antt =====
-- src/passman/core/security/clipboard.py: only what the manager copied last is ever cleared.
use ash_password_manager.Common.{
  ℕ, suc, sym, ◌∙◌, ◌≤◌, ◌<◌, subst, Bool, true, false, Option, none, some, List, [], ◌∷◌, ◌≡◌,
  refl, ◌⊎◌, inl, inr, arith, Bytes, same_bytes→eq, All, Any, Bool-cases,
}
use ash_password_manager.Security.Clipboard.{
  Desk, Timer, Tools, new_desk, pasted, clear_expected, is_positive, copy, clear_owned, clear_now,
  clear_if_unchanged, cancel_pending_clear,
}
use ash_password_manager.Security.Clipboard.Clearing.{HasFailed, ClearsCopied, copied_or_failed}

module _ (sha256 : Bytes → Bytes) where
  -- A life of the manager: its own operations, the callback of any timer that was ever started, also
  -- one that was cancelled too late, and the other programs of the desktop.
  pub data Life : Desk → Type 0 where
    begin : (contents : Option Bytes) → Life (new_desk contents)
    copies :
        {d : Desk} (tools : Tools) (text : Bytes) (timeout : Option ℕ)
        → Life d
        → Life (copy sha256 tools text timeout d).1
    clears : {d : Desk} (tools : Tools) → Life d → Life (clear_now sha256 tools d)
    cancels : {d : Desk} → Life d → Life (cancel_pending_clear d)
    fires :
        {d : Desk} (tools : Tools) (t : Timer)
        → Life d
        → Any (λ u. u ≡ t) d.started
        → Life (clear_if_unchanged sha256 tools t d)
    other_program :
        {d : Desk} (contents : Option Bytes) → Life d → Life (record d { contents = contents })

  -- The digest of the text copied last.
  abbrev Latest : List Bytes → Bytes → Type 0
  Latest [] digest = ⊥
  Latest (text ∷ texts) digest = sha256 text ≡ digest

  -- What is known of the arguments of a timer that was started: its generation has been reached, and
  -- if it is the present one, the timer is for the text copied last.
  abbrev IsTimely : ℕ → List Bytes → Timer → Type 0
  IsTimely n texts t = (t.generation ≤ n) × (t.generation ≡ n → Latest texts t.digest)

  pub record IsOwned (d : Desk) : Type 0 where
    pub expected : (digest : Bytes) → d.expected_digest ≡ some digest → Latest d.copied digest
    pub timers : All (IsTimely d.generation d.copied) d.started

  -- Timers of earlier generations have nothing to be timely for.
  outdated :
      (n m : ℕ) (texts texts' : List Bytes) (ts : List Timer)
      → n < m
      → All (IsTimely n texts) ts
      → All (IsTimely m texts') ts
  outdated n m texts texts' [] h k = tt
  outdated n m texts texts' (t ∷ ts) h k =
      ((omega arith, λ e. absurd (omega arith)), outdated n m texts texts' ts h k.1)

  IsTimely-at :
      (n : ℕ) (texts : List Bytes) (ts : List Timer) (t : Timer)
      → All (IsTimely n texts) ts
      → Any (λ u. u ≡ t) ts
      → IsTimely n texts t
  IsTimely-at n texts [] t h m = absurd m
  IsTimely-at n texts (u ∷ ts) t h (inl e) = subst (IsTimely n texts) e h.0
  IsTimely-at n texts (u ∷ ts) t h (inr m) = IsTimely-at n texts ts t h.1 m

  -- The contents are kept, or another program has replaced them after they were read, or they were the
  -- text with the expected digest when they were read and are cleared.
  abbrev ClearedOnly : Tools → Bytes → Desk → Desk → Type 0
  ClearedOnly tools digest d d' =
      (d'.contents ≡ d.contents)
      ⊎ (tools.written_between ≡ some d'.contents)
      ⊎ (d'.contents ≡ none)
        × ((bytes : Bytes) × (d.contents ≡ some bytes) × (sha256 bytes ≡ digest))

  abbrev Tidied : Desk → Desk → Type 0
  Tidied d d' =
      (d'.generation ≡ d.generation)
      × (d'.started ≡ d.started)
      × (d'.copied ≡ d.copied)
      × ((d'.expected_digest ≡ d.expected_digest) ⊎ (d'.expected_digest ≡ none))

  clear_owned_lem :
      (tools : Tools) (digest : Bytes) (d : Desk)
      → Tidied d (clear_owned sha256 tools digest d)
        × ClearedOnly tools digest d (clear_owned sha256 tools digest d)
  unfolding clear_owned
  clear_owned_lem tools digest d = go tools.paste_runs d.contents refl
    where
      go :
          (runs : Option Bool) (contents : Option Bytes)
          → d.contents ≡ contents
          → Tidied d (pasted sha256 runs contents tools digest d)
            × ClearedOnly tools digest d (pasted sha256 runs contents tools digest d)
      go none contents e = ground arith
      go (some false) contents e = ground arith
      go (some true) none e = ground arith
      go (some true) (some bytes) e = ground (arith, same_bytes→eq (sha256 bytes) digest)

  Tidied-IsOwned : (d d' : Desk) → Tidied d d' → IsOwned d → IsOwned d'
  Tidied-IsOwned d d' t o = record {
    expected = λ digest e.
        rw t.2 (o.expected digest (elim t.3 [ inl p ↦ sym p ∙ e | inr p ↦ absurd (cc (p, e)) ]));
    timers = rw (t.0, t.1, t.2) o.timers;
  }

  copy-IsOwned :
      (tools : Tools) (text : Bytes) (timeout : Option ℕ) (d : Desk)
      → IsOwned d
      → IsOwned (copy sha256 tools text timeout d).1
  unfolding copy
  copy-IsOwned tools text timeout d o = elim (Bool-cases tools.available) [
    | inr a ↦ rw a o
    | inl a ↦ elim (Bool-cases tools.copy_runs) [
      | inr b ↦ rw (a, b) (record { expected = o.expected; timers = o.timers })
      | inl b ↦ elim (Bool-cases (is_positive timeout)) [
        | inl c ↦
            rw (a, b, c)
              (record { expected = λ digest e. cc; timers = ((omega arith, λ e. refl), old) })
        | inr c ↦ rw (a, b, c) (record { expected = λ digest e. cc; timers = old })
      ]
    ]
  ]
    where
      old : All (IsTimely (suc d.generation) (text ∷ d.copied)) d.started
      old =
          outdated d.generation (suc d.generation) d.copied (text ∷ d.copied) d.started
            (omega arith) o.timers

  restart-IsOwned : (d : Desk) → IsOwned d → IsOwned (cancel_pending_clear d)
  unfolding cancel_pending_clear
  restart-IsOwned d o = record {
    expected = o.expected;
    timers =
        outdated d.generation (suc d.generation) d.copied d.copied d.started (omega arith) o.timers;
  }

  clear_expected_lem :
      (tools : Tools) (expected : Option Bytes) (d : Desk)
      → Tidied d (clear_expected sha256 tools expected d)
  unfolding clear_expected
  clear_expected_lem tools none d = ground arith
  clear_expected_lem tools (some digest) d = (clear_owned_lem tools digest d).0

  clear_now-IsOwned : (tools : Tools) (d : Desk) → IsOwned d → IsOwned (clear_now sha256 tools d)
  clear_now-IsOwned tools d o =
      unfold clear_now cancel_pending_clear in
      Tidied-IsOwned (cancel_pending_clear d)
        (clear_expected sha256 tools d.expected_digest (cancel_pending_clear d))
        (clear_expected_lem tools d.expected_digest (cancel_pending_clear d)) (restart-IsOwned d o)

  fire_lem :
      (tools : Tools) (t : Timer) (d : Desk)
      → Tidied d (clear_if_unchanged sha256 tools t d)
        × ((d.contents ≡ (clear_if_unchanged sha256 tools t d).contents)
            ⊎ (t.generation ≡ d.generation)
              × ClearedOnly tools t.digest d (clear_if_unchanged sha256 tools t d))
  unfolding clear_if_unchanged
  fire_lem tools t d = ground (arith, clear_owned_lem tools t.digest d)

  Life-IsOwned : {d : Desk} → Life d → IsOwned d
  unfolding new_desk
  Life-IsOwned (begin contents) = record { expected = λ digest e. cc; timers = tt }
  Life-IsOwned (copies {d = d} tools text timeout l) =
      copy-IsOwned tools text timeout d (Life-IsOwned l)
  Life-IsOwned (clears {d = d} tools l) = clear_now-IsOwned tools d (Life-IsOwned l)
  Life-IsOwned (cancels {d = d} l) = restart-IsOwned d (Life-IsOwned l)
  Life-IsOwned (fires {d = d} tools t l m) =
      Tidied-IsOwned d (clear_if_unchanged sha256 tools t d) (fire_lem tools t d).0 (Life-IsOwned l)
  Life-IsOwned (other_program contents l) =
      let o = Life-IsOwned l in record { expected = o.expected; timers = o.timers }

  -- The clipboard holds bytes with the digest of the text that was copied last.
  abbrev pub HoldsLatest : Desk → Type 0
  HoldsLatest d =
      (text : Bytes) × (texts : List Bytes) × (bytes : Bytes) × (d.copied ≡ text ∷ texts)
      × (d.contents ≡ some bytes)
      × (sha256 bytes ≡ sha256 text)

  -- What the manager may do to the clipboard that it has read in the state `d`.
  abbrev pub ClearsOwn : Tools → Desk → Desk → Type 0
  ClearsOwn tools d d' =
      (d'.contents ≡ d.contents)
      ⊎ (tools.written_between ≡ some d'.contents)
      ⊎ (d'.contents ≡ none) × HoldsLatest d

  Latest-held :
      (texts : List Bytes) (digest : Bytes) (d : Desk)
      → d.copied ≡ texts
      → Latest texts digest
      → (bytes : Bytes) → d.contents ≡ some bytes
      → sha256 bytes ≡ digest
      → HoldsLatest d
  Latest-held [] digest d e l bytes c s = absurd l
  Latest-held (text ∷ texts) digest d e l bytes c s = (text, texts, bytes, e, c, s ∙ sym l)

  own_of_cleared :
      (tools : Tools) (digest : Bytes) (d d' : Desk)
      → Latest d.copied digest
      → ClearedOnly tools digest d d'
      → ClearsOwn tools d d'
  own_of_cleared tools digest d d' l (inl e) = inl e
  own_of_cleared tools digest d d' l (inr (inl e)) = inr (inl e)
  own_of_cleared tools digest d d' l (inr (inr (e, (bytes, c, s)))) =
      inr (inr (e, Latest-held d.copied digest d refl l bytes c s))

  timer-ClearsOwn :
      (d : Desk) (tools : Tools) (t : Timer)
      → IsTimely d.generation d.copied t
      → ClearsOwn tools d (clear_if_unchanged sha256 tools t d)
  timer-ClearsOwn d tools t timely = elim (fire_lem tools t d).1 [
    | inl e ↦ inl (sym e)
    | inr (now, c) ↦
        own_of_cleared tools t.digest d (clear_if_unchanged sha256 tools t d) (timely.1 now) c
  ]

  expected-ClearsOwn :
      (d : Desk) (tools : Tools) (expected : Option Bytes)
      → ((digest : Bytes) → expected ≡ some digest → Latest d.copied digest)
      → ClearsOwn tools d (clear_expected sha256 tools expected (cancel_pending_clear d))
  unfolding clear_expected cancel_pending_clear
  expected-ClearsOwn d tools none l = inl refl
  expected-ClearsOwn d tools (some digest) l =
      own_of_cleared tools digest d (clear_owned sha256 tools digest (cancel_pending_clear d))
        (l digest refl) (clear_owned_lem tools digest (cancel_pending_clear d)).1

  clear_now-generation :
      (tools : Tools) (d : Desk) → (clear_now sha256 tools d).generation ≡ suc d.generation
  clear_now-generation tools d =
      unfold clear_now cancel_pending_clear in
      (clear_expected_lem tools d.expected_digest (cancel_pending_clear d)).0

  late_timer :
      (tools : Tools) (t : Timer) (d : Desk)
      → t.generation < d.generation
      → clear_if_unchanged sha256 tools t d ≡ d
  unfolding clear_if_unchanged
  late_timer tools t d h = ground arith

  -- However copies, clears, cancellations, late timers and other programs have been interleaved, also
  -- with another program between the two commands of a clearing: a timer that was started at any time
  -- and `clear_now` leave the clipboard as it is, or as that program has left it, or they clear it, and
  -- then it held bytes with the digest of the text that was copied last when it was read. What that
  -- program has written after the reading is cleared with it. After `clear_now` none of the timers that
  -- were started changes anything. After a text has been copied, unless a command fails, `clear_now`
  -- empties the clipboard, and so does the timer of the copy, which is started for a positive timeout.
  pub clears_own :
      {d : Desk} (tools later : Tools) (text : Bytes) (timeout : Option ℕ)
      → Life d
      → ((t : Timer)
          → Any (λ u. u ≡ t) d.started
          → ClearsOwn tools d (clear_if_unchanged sha256 tools t d))
        × ClearsOwn tools d (clear_now sha256 tools d)
        × ((t : Timer)
            → Any (λ u. u ≡ t) d.started
            → clear_if_unchanged sha256 later t (clear_now sha256 tools d)
              ≡ clear_now sha256 tools d)
        × (HasFailed tools later
            ⊎ ClearsCopied sha256 later text timeout d (copy sha256 tools text timeout d).1)
  clears_own {d} tools later text timeout l =
      let o = Life-IsOwned l in
      (
        λ t m. timer-ClearsOwn d tools t (IsTimely-at d.generation d.copied d.started t o.timers m),
        unfold clear_now cancel_pending_clear in
            expected-ClearsOwn d tools d.expected_digest o.expected,
        λ t m. late_timer later t (clear_now sha256 tools d) (
            omega (
              arith,
              clear_now-generation tools d,
              (IsTimely-at d.generation d.copied d.started t o.timers m).0,
            )),
        copied_or_failed sha256 tools later text timeout d,
      )
