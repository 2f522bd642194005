-- ===== src/Auth/Engine/Trace.antt =====
-- src/passman/core/auth/engine.py: what one step adds to the steps that were run.
use ash_password_manager.Common.{
  ℕ, zero, suc, ◌-◌, Bool, true, false, Option, none, some, List, [], ◌∷◌, ◌++◌, map, ◌≡◌, refl, ap,
  subst, ◌⊎◌, inl, inr, arith, keep, ltb, ◌==◌, Bool-cases, if◌then◌else◌,
}
use ash_password_manager.Common.Ints.{ℤ, pos, negsuc, int_of}
use ash_password_manager.Common.Chars.{codes}
use ash_password_manager.Totp.{Hmac}
use ash_password_manager.Vault.Models.{AccountSecrets}
use ash_password_manager.Auth.Detection.{DetectedContext}
use ash_password_manager.Auth.Strategy.{StepAction, AuthStep, type_username, wait}
use ash_password_manager.Auth.Steps.{
  Surroundings, Backend, Run, run_step, value_or, ask, emit, slept,
}
use ash_password_manager.Auth.Checks.{
  Verdict, go_on, stop, raises, failed, check_cancelled, cancel_answer, check_target, waited,
  wait_slices, ◌then_run◌,
}
use ash_password_manager.Auth.Engine.{perform, one_step, reported, waited_for}

-- A run went through the steps in their order: each succeeded, but for the last one that was run.
abbrev pub Follows : List AuthStep → List (AuthStep × Bool) → Type 0
Follows steps [] = Unit
Follows [] (x ∷ ran) = ⊥
Follows (s ∷ steps) ((t, true) ∷ ran) = (t ≡ s) × Follows steps ran
Follows (s ∷ steps) ((t, false) ∷ ran) = (t ≡ s) × (ran ≡ [])

abbrev pub all_done : List AuthStep → List (AuthStep × Bool)
all_done steps = map (λ s. (s, true)) steps

abbrev pub enabled_steps : List AuthStep → List AuthStep
enabled_steps steps = keep (λ s. s.enabled) steps

pub enabled_steps-cons :
    (s : AuthStep) (steps : List AuthStep)
    → s.enabled ≡ true
    → enabled_steps (s ∷ steps) ≡ s ∷ enabled_steps steps
enabled_steps-cons s steps on =
    ap (λ b. if b then s ∷ enabled_steps steps else enabled_steps steps) on

-- The loop ends because all enabled steps are done, or it has failed.
abbrev pub Ends : List AuthStep → Verdict → List (AuthStep × Bool) → Type 0
Ends steps go_on done = done ≡ all_done (enabled_steps steps)
Ends steps (stop result) done = result.outcome ≡ failed
Ends steps raises done = Unit

-- What a step or a check adds to the steps that were run; a run that ends early has failed.
abbrev pub Adds : AuthStep → Verdict → List (AuthStep × Bool) → List (AuthStep × Bool) → Type 0
Adds s go_on before after = after ≡ before ++ (s, true) ∷ []
Adds s (stop result) before after =
    (result.outcome ≡ failed) × ((after ≡ before) ⊎ (after ≡ before ++ (s, false) ∷ []))
Adds s raises before after = after ≡ before

abbrev Keeps : Verdict → List (AuthStep × Bool) → List (AuthStep × Bool) → Type 0
Keeps (stop result) before after = (result.outcome ≡ failed) × (after ≡ before)
Keeps _ before after = after ≡ before

cancelled-Keeps :
    (cancelled : Option (ℕ → Option Bool)) (r : Run)
    → let (v, r') = check_cancelled cancelled r in Keeps v r.ran r'.ran
unfolding check_cancelled
cancelled-Keeps cancelled r = ground arith

target-Keeps :
    (provider : Option (ℕ → Option DetectedContext)) (context : DetectedContext) (r : Run)
    → let (v, r') = check_target provider context r in Keeps v r.ran r'.ran
unfolding check_target
target-Keeps none context r = refl
target-Keeps (some provider) context r = ground arith

cancel_answer-Keeps :
    (o : Option Bool) (before : List (AuthStep × Bool)) → Keeps (cancel_answer o) before before
unfolding cancel_answer
cancel_answer-Keeps none before = refl
cancel_answer-Keeps (some true) before = (refl, refl)
cancel_answer-Keeps (some false) before = refl

Keeps-then :
    (before : List (AuthStep × Bool)) (v : Verdict) (r : Run) (k : Run → Verdict × Run)
    → Keeps v before r.ran
    → (r.ran ≡ before → Keeps (k r).0 before (k r).1.ran)
    → Keeps ((v, r) then_run k).0 before ((v, r) then_run k).1.ran
Keeps-then before go_on r k h f = f h
Keeps-then before (stop result) r k h f = h
Keeps-then before raises r k h f = h

slices-Keeps :
    (cancelled : ℕ → Option Bool) (fuel remaining : ℕ) (r : Run)
    → let (v, r') = wait_slices cancelled fuel remaining r in Keeps v r.ran r'.ran
unfolding wait_slices
slices-Keeps cancelled zero remaining r = refl
slices-Keeps cancelled (suc fuel) remaining r = elim (Bool-cases (remaining == 0)) [
  | inl done ↦ rw done refl
  | inr more ↦ rw more (
      Keeps-then r.ran (cancel_answer (cancelled r.questions)) (ask r)
        (λ asked. wait_slices cancelled fuel (remaining - slice) (emit (slept slice) asked))
        (cancel_answer-Keeps (cancelled r.questions) r.ran)
        (λ e. slices-Keeps cancelled fuel (remaining - slice) (emit (slept slice) (ask r))))
]
  where
    slice : ℕ
    slice = if ltb remaining 100 then remaining else 100

waited-Keeps :
    (cancelled : ℕ → Option Bool) (o : Option ℤ) (r : Run)
    → let (v, r') = waited cancelled o r in Keeps v r.ran r'.ran
unfolding waited
waited-Keeps cancelled none r = refl
waited-Keeps cancelled (some (negsuc n)) r = refl
waited-Keeps cancelled (some (pos ms)) r = slices-Keeps cancelled ms ms r

module _ (hmac : Hmac) (env : Surroundings) (b : Backend) (secrets : AccountSecrets) where
  ran-run_step :
      (a : StepAction) (s : AuthStep) (r : Run) → (run_step hmac env b secrets a s r).1.ran ≡ r.ran
  unfolding run_step
  ran-run_step type_username s r = ground arith
  ran-run_step _ s r = ground arith

  reported-Adds :
      (s : AuthStep) (o : Option Bool) (r : Run)
      → let (v, r') = reported s (o, r) in Adds s v r.ran r'.ran
  reported-Adds s none r = refl
  reported-Adds s (some true) r = refl
  reported-Adds s (some false) r = (refl, inr refl)

  Adds-then :
      (s : AuthStep) (before : List (AuthStep × Bool)) (v : Verdict) (r : Run)
      (k : Run → Verdict × Run)
      → Keeps v before r.ran
      → (r.ran ≡ before → Adds s (k r).0 before (k r).1.ran)
      → Adds s ((v, r) then_run k).0 before ((v, r) then_run k).1.ran
  Adds-then s before go_on r k h f = f h
  Adds-then s before (stop result) r k h f = (h.0, inl h.1)
  Adds-then s before raises r k h f = h

  waited_for-Adds :
      (s : AuthStep) (before : List (AuthStep × Bool)) (v : Verdict) (r : Run)
      → Keeps v before r.ran
      → let (v', r') = waited_for s (v, r) in Adds s v' before r'.ran
  waited_for-Adds s before go_on r h = ap (λ xs. xs ++ (s, true) ∷ []) h
  waited_for-Adds s before (stop result) r h = (h.0, inl h.1)
  waited_for-Adds s before raises r h = h

  run_step-Adds :
      (a : StepAction) (s : AuthStep) (r : Run)
      → let (v, r') = reported s (run_step hmac env b secrets a s r) in Adds s v r.ran r'.ran
  run_step-Adds a s r =
      let (o, after) = run_step hmac env b secrets a s r in
      rw (ran-run_step a s r) at (reported-Adds s o after)

  perform-Adds :
      (cancelled : Option (ℕ → Option Bool)) (a : StepAction) (s : AuthStep) (r : Run)
      → let (v, r') = perform hmac env b secrets cancelled a s r in Adds s v r.ran r'.ran
  unfolding perform
  perform-Adds (some cancelled) wait s r =
      let (v, after) = waited cancelled (int_of (value_or (codes "0") s.value)) r in
      waited_for-Adds s r.ran v after
        (waited-Keeps cancelled (int_of (value_or (codes "0") s.value)) r)
  perform-Adds cancelled a s r = run_step-Adds a s r

  module _ (context : DetectedContext) where
    pub one_step-Adds :
        (s : AuthStep) (r : Run)
        → let (v, r') = one_step hmac env b secrets context s r in Adds s v r.ran r'.ran
    unfolding one_step
    one_step-Adds s r =
        let c = check_cancelled env.is_cancelled r in
        let m = c then_run check_target env.context_provider context in
        let p = perform hmac env b secrets env.is_cancelled s.action s in
        Adds-then s r.ran m.0 m.1 p
          (Keeps-then r.ran c.0 c.1 (check_target env.context_provider context)
            (cancelled-Keeps env.is_cancelled r)
            (λ e.
              subst
                (λ xs.
                  Keeps (check_target env.context_provider context c.1).0 xs
                    (check_target env.context_provider context c.1).1.ran)
                e (target-Keeps env.context_provider context c.1)))
          (λ e.
            subst (λ xs. Adds s (p m.1).0 xs (p m.1).1.ran) e
              (perform-Adds env.is_cancelled s.action s m.1))
