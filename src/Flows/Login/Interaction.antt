-- ===== src/Flows/Login/Interaction.antt =====
-- A whole sign-in of src/passman/core/flows/login_machine.py: the automatic attempt, then any
-- number of passwords.
use ash_password_manager.Common.{
  ℕ, zero, suc, ap, String, true, false, none, some, List, [], ◌∷◌, ◌++◌, ◌≡◌, refl, ◌⊎◌, inl, inr,
  arith, replicate,
}
use ash_password_manager.Security.Memory.{SecretBytes}
use ash_password_manager.Vaults.Record.{VaultRecord}
use ash_password_manager.Flows.Login.{
  LoginOutcome, LoginFlow, Attempt, Callable, identify_call, mount_call, local_key_call,
  password_call, ask_password, manager, failed, submit_password, attempt_automatic_login,
}

-- The calls once the Local Key has been tried, and then `n` passwords.
abbrev pub key_tried : ℕ → List Callable
key_tried n = identify_call ∷ mount_call ∷ local_key_call ∷ replicate n password_call

-- The calls where no registered USB was found, or it could not be mounted.
abbrev pub Unidentified : List Callable → Type 0
Unidentified cs = (cs ≡ identify_call ∷ []) ⊎ (cs ≡ identify_call ∷ mount_call ∷ [])

-- The interactions that the login window can have with a new flow: the automatic attempt, and a
-- password whenever the last outcome asks for one. The result of each unlock may differ each time,
-- so the flow's callables may be replaced between two passwords.
pub data Interaction : LoginFlow → LoginOutcome → Type 0 where
  automatic :
      (f : LoginFlow)
      → f.calls ≡ []
      → f.fallback_used ≡ false
      → Interaction (attempt_automatic_login f).1 (attempt_automatic_login f).0
  retype :
      {f : LoginFlow} {out : LoginOutcome} (r : VaultRecord) (m : String) (password : SecretBytes)
      (unlock : VaultRecord → String → SecretBytes → Attempt)
      → Interaction f out
      → out.state ≡ ask_password
      → out.vault_record ≡ some r
      → out.mountpoint ≡ some m
      → Interaction
          (submit_password (record f { unlock_with_password = unlock }) r m password).1
          (submit_password (record f { unlock_with_password = unlock }) r m password).0

-- What a sign-in may have done so far.
pub record IsSound (f : LoginFlow) (out : LoginOutcome) : Type 0 where
  pub released : out.state ≡ manager → (s : SecretBytes) × (out.vms ≡ some s)
  pub asks : out.state ≡ ask_password → (out.vms ≡ none) × (f.fallback_used ≡ true)
  pub fallback : out.used_local_key ≡ false → out.state ≡ manager → f.fallback_used ≡ true
  pub by_key : out.used_local_key ≡ true → (out.state ≡ manager) × (f.calls ≡ key_tried 0)
  pub order : (out.state ≡ failed) × Unidentified f.calls ⊎ ((n : ℕ) × (f.calls ≡ key_tried n))

module _ (f : LoginFlow) (new : f.calls ≡ []) (unused : f.fallback_used ≡ false) where
  automatic_calls :
      let (out, f') = attempt_automatic_login f in
      (out.state ≡ failed) × Unidentified f'.calls ⊎ (f'.calls ≡ key_tried 0)
  unfolding attempt_automatic_login
  automatic_calls = ground arith

  automatic_state :
      let (out, f') = attempt_automatic_login f in
      (out.state ≡ failed)
      ⊎ (out.state ≡ manager)
        × (out.used_local_key ≡ true)
        × (f'.calls ≡ key_tried 0)
        × ((s : SecretBytes) × (out.vms ≡ some s))
      ⊎ (out.state ≡ ask_password)
        × (out.used_local_key ≡ false)
        × (out.vms ≡ none)
        × (f'.fallback_used ≡ true)
  unfolding attempt_automatic_login
  automatic_state = ground arith

  automatic_failed :
      let (out, f') = attempt_automatic_login f in out.state ≡ failed → out.used_local_key ≡ false
  unfolding attempt_automatic_login
  automatic_failed = ground arith

  automatic-IsSound : let (out, f') = attempt_automatic_login f in IsSound f' out
  automatic-IsSound = record {
    released = ground (arith, automatic_state);
    asks = ground (arith, automatic_state);
    fallback = ground (arith, automatic_state);
    by_key = ground (arith, automatic_state, automatic_failed);
    order = elim automatic_calls [ inl h ↦ inl h | inr h ↦ inr (0, h) ];
  }

replicate-snoc :
    (n : ℕ) → replicate n password_call ++ password_call ∷ [] ≡ replicate (suc n) password_call
replicate-snoc zero = refl
replicate-snoc (suc n) = ap (λ cs. password_call ∷ cs) (replicate-snoc n)

key_tried-snoc : (n : ℕ) → key_tried n ++ password_call ∷ [] ≡ key_tried (suc n)
key_tried-snoc n = ap (λ cs. identify_call ∷ mount_call ∷ local_key_call ∷ cs) (replicate-snoc n)

module _ (f : LoginFlow) (r : VaultRecord) (m : String) (password : SecretBytes) where
  submit_calls : (submit_password f r m password).1.calls ≡ f.calls ++ password_call ∷ []
  unfolding submit_password
  submit_calls = ground arith

  submit_state :
      let (out, f') = submit_password f r m password in
      (f'.fallback_used ≡ f.fallback_used)
      × (out.used_local_key ≡ false)
      × ((out.state ≡ manager) × ((s : SecretBytes) × (out.vms ≡ some s))
          ⊎ (out.state ≡ ask_password) × (out.vms ≡ none))
  unfolding submit_password
  submit_state = ground arith

  submit-IsSound :
      (n : ℕ)
      → f.calls ≡ key_tried n
      → f.fallback_used ≡ true
      → let (out, f') = submit_password f r m password in IsSound f' out
  submit-IsSound n tried fell = record {
    released = ground (arith, submit_state);
    asks = ground (arith, submit_state);
    fallback = ground (arith, submit_state);
    by_key = ground (arith, submit_state);
    order = inr (suc n, rw submit_calls (rw tried (key_tried-snoc n)));
  }

tried_before :
    {f : LoginFlow} {out : LoginOutcome}
    → IsSound f out
    → out.state ≡ ask_password
    → (n : ℕ) × (f.calls ≡ key_tried n)
tried_before s e = elim s.order [ inl h ↦ absurd (cc (h.0, e)) | inr t ↦ t ]

-- In every sign-in the outcome opens the manager only with a released secret, asks for a password
-- only after the Local Key has failed, and the callables were invoked in this order: identify, mount,
-- the Local Key once, and then passwords, of which there are none if the Local Key opened the vault.
-- If no vault was identified or mounted, neither the Local Key nor a password was tried.
pub Interaction-IsSound : {f : LoginFlow} {out : LoginOutcome} → Interaction f out → IsSound f out
Interaction-IsSound (automatic f new unused) = automatic-IsSound f new unused
Interaction-IsSound (retype {f = f} r m password unlock i asked er em) =
    let sound = Interaction-IsSound i in
    let (n, tried) = tried_before sound asked in
    submit-IsSound (record f { unlock_with_password = unlock }) r m password n tried
      (sound.asks asked).1
