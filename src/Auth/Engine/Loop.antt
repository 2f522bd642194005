-- ===== src/Auth/Engine/Loop.antt =====
-- src/passman/core/auth/engine.py: which steps a run goes through, and how it ends.
use ash_password_manager.Common.{
  Bool, true, false, Option, none, some, List, [], ◌∷◌, ◌++◌, ◌≡◌, refl, sym, ap, subst, ◌∙◌, inl,
  inr, append_assoc, append-nil, Bool-cases,
}
use ash_password_manager.Totp.{Hmac}
use ash_password_manager.Vault.Models.{AccountSecrets}
use ash_password_manager.Auth.Detection.{DetectedContext}
use ash_password_manager.Auth.Strategy.{AuthStep}
use ash_password_manager.Auth.Steps.{Surroundings, Backend, Run, fresh}
use ash_password_manager.Auth.Checks.{
  Verdict, go_on, stop, raises, LoginResult, success, needs_confirmation, ◌then_run◌,
}
use ash_password_manager.Auth.Engine.{result_of, run_on, one_step, run_steps}
use ash_password_manager.Auth.Engine.Trace.{
  Follows, all_done, enabled_steps, enabled_steps-cons, Ends, Adds, one_step-Adds,
}

module _ (hmac : Hmac) (env : Surroundings) (b : Backend) (secrets : AccountSecrets)
    (context : DetectedContext) where
  -- What the whole loop adds.
  abbrev Runs : List AuthStep → Verdict → List (AuthStep × Bool) → List (AuthStep × Bool) → Type 0
  Runs steps v before after =
      (done : List (AuthStep × Bool)) × (after ≡ before ++ done)
      × Follows (enabled_steps steps) done
      × Ends steps v done

  Runs-skip :
      (s : AuthStep) (steps : List AuthStep) (v : Verdict) (before after : List (AuthStep × Bool))
      → s.enabled ≡ false
      → Runs steps v before after
      → Runs (s ∷ steps) v before after
  Runs-skip s steps go_on before after off h = rw off h
  Runs-skip s steps (stop result) before after off h = rw off h
  Runs-skip s steps raises before after off h = rw off h

  loop : List AuthStep → Run → Verdict × Run
  loop steps r = run_steps hmac env b secrets context steps r

  run_steps-skip :
      (s : AuthStep) (steps : List AuthStep) (r : Run)
      → s.enabled ≡ false
      → loop (s ∷ steps) r ≡ loop steps r
  unfolding loop run_steps
  run_steps-skip s steps r off = rw off refl

  run_steps-do :
      (s : AuthStep) (steps : List AuthStep) (r : Run)
      → s.enabled ≡ true
      → loop (s ∷ steps) r ≡ (one_step hmac env b secrets context s r then_run loop steps)
  unfolding loop run_steps
  run_steps-do s steps r on = rw on refl

  Ends-cons :
      (s : AuthStep) (steps : List AuthStep) (v : Verdict) (done : List (AuthStep × Bool))
      → s.enabled ≡ true
      → Ends steps v done
      → Ends (s ∷ steps) v ((s, true) ∷ done)
  Ends-cons s steps go_on done on h =
      ap (λ xs. (s, true) ∷ xs) h ∙ sym (ap all_done (enabled_steps-cons s steps on))
  Ends-cons s steps (stop result) done on h = h
  Ends-cons s steps raises done on h = tt

  Runs-then :
      (s : AuthStep) (steps : List AuthStep) (before : List (AuthStep × Bool)) (v : Verdict)
      (r : Run)
      → s.enabled ≡ true
      → Adds s v before r.ran
      → Runs steps (loop steps r).0 r.ran (loop steps r).1.ran
      → let (v', r') = (v, r) then_run loop steps in Runs (s ∷ steps) v' before r'.ran
  Runs-then s steps before go_on r on a (done, e, f, ends) = (
    (s, true) ∷ done,
    e ∙ ap (λ xs. xs ++ done) a ∙ append_assoc before ((s, true) ∷ []) done,
    rw on (refl, f),
    Ends-cons s steps (loop steps r).0 done on ends,
  )
  Runs-then s steps before (stop result) r on (bad, inl same) h =
      ([], same ∙ sym (append-nil before), tt, bad)
  Runs-then s steps before (stop result) r on (bad, inr more) h =
      ((s, false) ∷ [], more, rw on (refl, refl), bad)
  Runs-then s steps before raises r on a h = ([], a ∙ sym (append-nil before), tt, tt)

  run_steps-Runs :
      (steps : List AuthStep) (r : Run) → Runs steps (loop steps r).0 r.ran (loop steps r).1.ran
  run_steps-Runs [] r = unfold loop run_steps in ([], sym (append-nil r.ran), tt, refl)
  run_steps-Runs (s ∷ steps) r = elim (Bool-cases s.enabled) [
    | inr off ↦
        rw (run_steps-skip s steps r off) (
          Runs-skip s steps (loop steps r).0 r.ran (loop steps r).1.ran off
            (run_steps-Runs steps r))
    | inl on ↦
        let m = one_step hmac env b secrets context s r in
        rw (run_steps-do s steps r on) (
          Runs-then s steps r.ran m.0 m.1 on (one_step-Adds hmac env b secrets context s r)
            (run_steps-Runs steps m.1))
  ]

-- What the result of a run says of the steps that were run.
abbrev pub Accounts : List AuthStep → LoginResult → List (AuthStep × Bool) → Type 0
Accounts steps result ran =
    Follows (enabled_steps steps) ran
    × (result.outcome ≡ success → ran ≡ all_done (enabled_steps steps))
    × (result.outcome ≡ needs_confirmation → ⊥)

Ends-Accounts :
    (steps : List AuthStep) (v : Verdict) (done : List (AuthStep × Bool))
    → Follows (enabled_steps steps) done
    → Ends steps v done
    → Accounts steps (result_of v) done
Ends-Accounts steps go_on done f e = (f, λ h. e, λ h. cc)
Ends-Accounts steps (stop result) done f e = (f, λ h. absurd (cc (h, e)), λ h. cc (h, e))
Ends-Accounts steps raises done f e = (f, λ h. absurd (cc h), λ h. cc)

pub run_on-Accounts :
    (hmac : Hmac) (env : Surroundings) (b : Option Backend) (secrets : AccountSecrets)
    (context : DetectedContext) (steps : List AuthStep)
    → let (result, r) = run_on hmac env b secrets context steps in Accounts steps result r.ran
unfolding run_on run_steps loop
run_on-Accounts hmac env none secrets context steps = (tt, λ h. absurd (cc h), λ h. cc)
run_on-Accounts hmac env (some b) secrets context steps =
    let (done, e, f, ends) = run_steps-Runs hmac env b secrets context steps fresh in
    subst
      (λ ran. Accounts steps (result_of (run_steps hmac env b secrets context steps fresh).0) ran)
      (sym e) (Ends-Accounts steps (run_steps hmac env b secrets context steps fresh).0 done f ends)
