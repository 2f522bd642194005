-- ===== src/Flows/Setup/History.antt =====
-- Every wizard that src/passman/core/flows/setup_machine.py admits, with the states it has been in.
use ash_password_manager.Common.{
  ℕ, zero, suc, ◌+◌, ◌-◌, ◌≤◌, ◌<◌, length, ◌∙◌, Option, none, String, Bool, true, false, some,
  List, [], ◌∷◌, ◌≡◌, refl, ◌⊎◌, inl, inr, arith, All, subst, sym, ◌≢◌,
}
use ash_password_manager.Flows.Setup.{
  SetupState, SetupFlow, SetupDraft, first_run, usb_selection, adopt_or_create, password_creation,
  local_key_optional, vault_creation, device_registration, hotkey_setup, usb_removal_configuration,
  setup_complete, failed, new_flow, advance_to, fail, can_advance_to, is_complete,
}

-- The flow after some calls, and the states that it has left, the latest first. The answers of the
-- draft may be changed at any time.
pub data Wizard : SetupFlow → List SetupState → Type 0 where
  start : Wizard new_flow []
  advance :
      {f g : SetupFlow} {past : List SetupState} (target : SetupState)
      → Wizard f past
      → advance_to f target ≡ some g
      → Wizard g (f.state ∷ past)
  abort :
      {f g : SetupFlow} {past : List SetupState} (reason : String)
      → Wizard f past
      → fail f reason ≡ some g
      → Wizard g (f.state ∷ past)
  answer :
      {f : SetupFlow} {past : List SetupState} (draft : SetupDraft)
      → Wizard f past
      → Wizard (record f { draft = draft }) past

-- How far along the wizard a state is.
abbrev pub place : SetupState → ℕ
place first_run = 0
place usb_selection = 1
place adopt_or_create = 2
place password_creation = 3
place local_key_optional = 4
place vault_creation = 5
place device_registration = 6
place hotkey_setup = 7
place usb_removal_configuration = 8
place setup_complete = 9
place failed = 10

-- The states before the password is chosen, the latest first, with or without the adoption.
abbrev before_password : Bool → List SetupState
before_password true = adopt_or_create ∷ usb_selection ∷ first_run ∷ []
before_password false = usb_selection ∷ first_run ∷ []

abbrev before_vault : Bool → List SetupState
before_vault adopted = local_key_optional ∷ password_creation ∷ before_password adopted

-- The states before `s` on one of the two routes, the latest first.
abbrev pub route : Bool → SetupState → List SetupState
route adopted first_run = []
route adopted usb_selection = first_run ∷ []
route adopted adopt_or_create = usb_selection ∷ first_run ∷ []
route adopted password_creation = before_password adopted
route adopted local_key_optional = password_creation ∷ before_password adopted
route adopted vault_creation = before_vault adopted
route adopted device_registration = vault_creation ∷ before_vault adopted
route adopted hotkey_setup = device_registration ∷ vault_creation ∷ before_vault adopted
route adopted usb_removal_configuration =
    hotkey_setup ∷ device_registration ∷ vault_creation ∷ before_vault adopted
route adopted setup_complete =
    usb_removal_configuration
    ∷ hotkey_setup
    ∷ device_registration
    ∷ vault_creation
    ∷ before_vault adopted
route adopted failed = []

-- A failed wizard has left only states from before the vault is on disk; any other has taken one of
-- the two routes.
abbrev pub HasPast : SetupState → List SetupState → Type 0
HasPast failed past = All (λ s. place s < place vault_creation) past
HasPast s past = (past ≡ route true s) ⊎ (past ≡ route false s)

-- One step, on the states alone.
step_HasPast :
    (s target : SetupState) (d : SetupDraft) (why : Option String) (past : List SetupState)
    → can_advance_to (record { state = s; draft = d; failure_reason = why }) target ≡ true
    → HasPast s past
    → HasPast target (s ∷ past)
unfolding can_advance_to
step_HasPast first_run failed d why past e h = ground arith
step_HasPast _ _ d why past e h = ground arith

advance_inversion :
    (f g : SetupFlow) (target : SetupState)
    → advance_to f target ≡ some g
    → (can_advance_to f target ≡ true) × (g ≡ record f { state = target })
unfolding advance_to
advance_inversion f g target e = ground arith

abort_HasPast :
    (s : SetupState) (d : SetupDraft) (why : Option String) (reason : String) (g : SetupFlow)
    (past : List SetupState)
    → fail (record { state = s; draft = d; failure_reason = why }) reason ≡ some g
    → HasPast s past
    → (g.state ≡ failed) × HasPast failed (s ∷ past)
unfolding fail
abort_HasPast first_run d why reason g past e h = ground arith
abort_HasPast _ d why reason g past e h = ground arith

-- Whatever the user does, a wizard that has not failed has gone through exactly the states of one of
-- the two routes to its own, with or without the adoption, each once and in order; and one that has
-- failed never left a state at or after the creation of the vault.
pub Wizard-HasPast : {f : SetupFlow} {past : List SetupState} → Wizard f past → HasPast f.state past
unfolding new_flow
Wizard-HasPast start = inl refl
Wizard-HasPast (advance {f = f} {g = g} {past = past} target w e) =
    let (may, made) = advance_inversion f g target e in
    subst (λ (h : SetupFlow). HasPast h.state (f.state ∷ past)) (sym made)
      (step_HasPast f.state target f.draft f.failure_reason past may (Wizard-HasPast w))
Wizard-HasPast (abort {f = f} {g = g} {past = past} reason w e) =
    let (ended, early) =
      abort_HasPast f.state f.draft f.failure_reason reason g past e (Wizard-HasPast w) in
    subst (λ s. HasPast s (f.state ∷ past)) (sym ended) early
Wizard-HasPast (answer draft w) = Wizard-HasPast w

-- The next state of the shorter route.
abbrev pub next : SetupState → SetupState
next first_run = usb_selection
next usb_selection = password_creation
next adopt_or_create = password_creation
next password_creation = local_key_optional
next local_key_optional = vault_creation
next vault_creation = device_registration
next device_registration = hotkey_setup
next hotkey_setup = usb_removal_configuration
next _ = setup_complete

advance-next :
    (s : SetupState) (d : SetupDraft) (why : Option String)
    → s ≢ failed
    → (s ≡ setup_complete)
      ⊎ (advance_to (record { state = s; draft = d; failure_reason = why }) (next s)
          ≡ some (record { state = next s; draft = d; failure_reason = why }))
        × (next s ≢ failed)
        × (place s < place (next s))
unfolding advance_to
advance-next first_run d why h = ground arith
advance-next _ d why h = ground arith

-- `advance_to` for one target after another; `none` if one of them is refused.
abbrev pub advance_through : List SetupState → SetupFlow → Option SetupFlow
advance_through [] f = some f
advance_through (target ∷ targets) f = elim (advance_to f target) [
  | none ↦ none
  | some g ↦ advance_through targets g
]

-- At most `n` steps, all of them admitted, lead from `f` to a complete wizard with the same answers.
abbrev pub CompletesIn : ℕ → SetupFlow → Type 0
CompletesIn n f =
    (targets : List SetupState) × (g : SetupFlow) × (advance_through targets f ≡ some g)
    × (length targets ≤ n)
    × (is_complete g ≡ true)
    × (g.draft ≡ f.draft)

there : (n : ℕ) (f : SetupFlow) → f.state ≡ setup_complete → CompletesIn n f
unfolding is_complete
there n f e = ([], f, refl, omega arith, rw e refl, refl)

one_more :
    (n : ℕ) (f g : SetupFlow) (target : SetupState)
    → advance_to f target ≡ some g
    → g.draft ≡ f.draft
    → CompletesIn n g
    → CompletesIn (suc n) f
one_more n f g target e same (targets, h, runs, short, done, kept) = (
  target ∷ targets,
  h,
  subst (λ o. elim o [ none ↦ none | some x ↦ advance_through targets x ] ≡ some h) (sym e) runs,
  omega arith,
  done,
  kept ∙ same,
)

last : (s : SetupState) → s ≢ failed → 9 ≤ place s → s ≡ setup_complete
last first_run h b = absurd (omega arith)
last failed h b = absurd (h refl)
last setup_complete h b = refl
last _ h b = absurd (omega arith)

finish : (k : ℕ) (f : SetupFlow) → f.state ≢ failed → 9 ≤ place f.state + k → CompletesIn k f
finish zero f h b = there zero f (last f.state h (omega arith))
finish (suc k) f h b = elim (advance-next f.state f.draft f.failure_reason h) [
  | inl e ↦ there (suc k) f e
  | inr more ↦
      one_more k f (record f { state = next f.state }) (next f.state) more.0 refl
        (finish k (record f { state = next f.state }) more.1 (omega arith))
]

-- Every wizard that has not failed can itself be completed, with the answers that it holds, by at most
-- as many calls of `advance_to`, none of them refused, as its place is before the last: nine at the start.
pub Wizard-Completes :
    {f : SetupFlow} {past : List SetupState}
    → Wizard f past
    → f.state ≢ failed
    → CompletesIn (9 - place f.state) f
Wizard-Completes {f} {past} w h = finish (9 - place f.state) f h (omega arith)
