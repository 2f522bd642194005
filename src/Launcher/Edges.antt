-- ===== src/Launcher/Edges.antt =====
-- src/passman/launcher/agent.py: how often a sign-in is started over the agent's life.
use ash_password_manager.Common.{
  ℕ, ◌+◌, Bool, true, false, not, ◌&&◌, ◌||◌, none, some, List, [], ◌∷◌, Bytes, any, count_if,
  one_if, same_bytes, same_bytes→eq, Bool-cases, Option-cases, ◌≡◌, ◌⊎◌, inl, inr, refl, ap, subst,
  arith, if◌then◌else◌,
}
use ash_password_manager.Launcher.Agent.{
  has, add, compute_newly_connected_vaults, Watched, Poll, unavailable, sees, is_connected,
  connected_from, take_over, Agent, new_agent, handle_blocks, poll_once,
}

abbrev pub times : Bytes → List Bytes → ℕ
times v vs = count_if (same_bytes v) vs

-- The agent after some polls, the latest first.
abbrev pub agent_after : List Poll → Agent
agent_after [] = new_agent
agent_after (p ∷ past) = (poll_once p (agent_after past)).1

-- The sign-ins started for a vault over some polls.
abbrev pub sign_ins : Bytes → List Poll → ℕ
sign_ins v [] = 0
sign_ins v (p ∷ past) = times v ((poll_once p (agent_after past)).0) + sign_ins v past

abbrev answered : List Watched → Bool
answered [] = true
answered (w ∷ ws) = let rest = answered ws in elim w.answers [ none ↦ false | some u ↦ rest ]

-- A poll that is not cut short by an error.
abbrev pub is_whole : Poll → Bool
is_whole unavailable = false
is_whole (sees ws) = answered ws

abbrev found_as : Bytes → Watched → Bool
found_as v w = elim w.answers [
  | none ↦ false
  | some u ↦ is_connected u w.registration && same_bytes v w.vault_id
]

-- A poll that finds the drive of the vault.
abbrev pub shows : Bytes → Poll → Bool
shows v unavailable = false
shows v (sees ws) = any (found_as v) ws

-- What the latest complete poll said of the vault; before the first, its drive counts as absent.
abbrev pub was_there : Bytes → List Poll → Bool
was_there v [] = false
was_there v (p ∷ past) = let rest = was_there v past in if is_whole p then shows v p else rest

-- How often the drive of the vault went from absent to present.
abbrev pub insertions : Bytes → List Poll → ℕ
insertions v [] = 0
insertions v (p ∷ past) =
    one_if (is_whole p && shows v p && not (was_there v past)) + insertions v past

has-times : (v : Bytes) (vs : List Bytes) (b : Bool) → times v vs ≡ one_if b → has v vs ≡ b
has-times v [] true h = ground arith
has-times v [] false h = refl
has-times v (u ∷ vs) b h = elim (Bool-cases (same_bytes v u)) [
  | inl same ↦ ground arith
  | inr other ↦ rw other (has-times v vs b (rw other at h))
]

times-add :
    (v u : Bytes) (vs : List Bytes) (b : Bool)
    → times v vs ≡ one_if b
    → times v (add u vs) ≡ one_if (b || same_bytes v u)
times-add v u vs b h = elim (Bool-cases (same_bytes v u)) [
  | inl same ↦ ground (
    arith,
    has-times v vs b h,
    subst (λ w. has w vs ≡ b) (same_bytes→eq v u same) (has-times v vs b h),
  )
  | inr other ↦ ground arith
]

some-injective : {A : Type 0} {a b : A} → some a ≡ some b → a ≡ b
some-injective {A} {a} {b} e = cc e

times-connected_from :
    (v : Bytes) (found current : List Bytes) (ws : List Watched) (b : Bool)
    → times v found ≡ one_if b
    → connected_from found ws ≡ some current
    → times v current ≡ one_if (b || any (found_as v) ws)
times-connected_from v found current [] b h e = ground (arith, some-injective e)
times-connected_from v found current (w ∷ ws) b h e = elim (Option-cases w.answers) [
  | inl none_there ↦ absurd (cc (rw none_there at e))
  | inr (u, there) ↦ elim (Bool-cases (is_connected u w.registration)) [
    | inl on ↦
        let rest =
          times-connected_from v (add w.vault_id found) current ws (b || same_bytes v w.vault_id)
            (times-add v w.vault_id found b h) (rw on at (rw there at e)) in
        rw there (rw on (ground (arith, rest)))
    | inr off ↦
        rw there (rw off (times-connected_from v found current ws b h (rw off at (rw there at e))))
  ]
]

times-compute_newly_connected_vaults :
    (v : Bytes) (previous current : List Bytes)
    → times v (compute_newly_connected_vaults previous current)
      ≡ (if has v previous then 0 else times v current)
unfolding compute_newly_connected_vaults
times-compute_newly_connected_vaults v previous [] = ground arith
times-compute_newly_connected_vaults v previous (u ∷ current) = elim (Bool-cases (same_bytes v u)) [
  | inl same ↦ ground (
    arith,
    times-compute_newly_connected_vaults v previous current,
    ap (λ w. has w previous) (same_bytes→eq v u same),
  )
  | inr other ↦ ground (arith, times-compute_newly_connected_vaults v previous current)
]

connected_from-cases :
    (found : List Bytes) (ws : List Watched)
    → ((answered ws ≡ false) × (connected_from found ws ≡ none))
      ⊎ ((answered ws ≡ true) × ((current : List Bytes) × (connected_from found ws ≡ some current)))
connected_from-cases found [] = inr (refl, (found, refl))
connected_from-cases found (w ∷ ws) = elim (Option-cases w.answers) [
  | inl none_there ↦ rw none_there (inl (refl, refl))
  | inr (u, there) ↦ rw there (
      connected_from-cases (if is_connected u w.registration then add w.vault_id found else found)
        ws)
]

module _ (v : Bytes) where
  -- One poll, for an agent that knows whether the drive was there.
  times-handle_blocks :
      (ws : List Watched) (a : Agent) (b : Bool)
      → times v a.previously_connected ≡ one_if b
      → (times v ((handle_blocks ws a).1).previously_connected
          ≡ one_if (if answered ws then any (found_as v) ws else b))
        × (times v ((handle_blocks ws a).0) ≡ one_if (answered ws && any (found_as v) ws && not b))
  unfolding handle_blocks take_over
  times-handle_blocks ws a b h = elim (connected_from-cases [] ws) [
    | inl (cut, failed) ↦ rw cut (rw failed (h, refl))
    | inr (whole, (current, done)) ↦
        let now = times-connected_from v [] current ws false refl done in
        rw whole (
          rw done (
            now,
            ground (
              arith,
              times-compute_newly_connected_vaults v a.previously_connected current,
              has-times v a.previously_connected b h,
            ),
          ))
  ]

  tracks :
      (past : List Poll)
      → times v (agent_after past).previously_connected ≡ one_if (was_there v past)
  unfolding poll_once
  tracks [] = refl
  tracks (unavailable ∷ past) = tracks past
  tracks (sees ws ∷ past) =
      (times-handle_blocks ws (agent_after past) (was_there v past) (tracks past)).0

  sign_ins_once :
      (p : Poll) (past : List Poll)
      → times v ((poll_once p (agent_after past)).0)
        ≡ one_if (is_whole p && shows v p && not (was_there v past))
  unfolding poll_once
  sign_ins_once unavailable past = refl
  sign_ins_once (sees ws) past =
      (times-handle_blocks ws (agent_after past) (was_there v past) (tracks past)).1

  -- Whatever the polls meet, a sign-in is started for a vault exactly as often as its drive goes from
  -- absent to present between two polls that are not cut short by an error. So several signals for one
  -- insertion start one sign-in, and an error neither starts one nor forgets that the drive was there.
  pub sign_ins_lem : (past : List Poll) → sign_ins v past ≡ insertions v past
  sign_ins_lem [] = refl
  sign_ins_lem (p ∷ past) = omega (arith, sign_ins_once p past, sign_ins_lem past)
