-- ===== src/Launcher/Agent.antt =====
-- src/passman/launcher/usb_watch_logic.py and src/passman/launcher/agent.py: the process that watches
-- for the drives of the registered vaults and starts a sign-in. What UDisks2 answers to each lookup is
-- a parameter, as is whether a command can be started.
use ash_password_manager.Common.{
  Bool, true, false, not, Option, none, some, List, [], ◌∷◌, Bytes, any, keep, same_bytes, is_some,
  if◌then◌else◌,
}
use ash_password_manager.Common.Chars.{codes}
use ash_password_manager.Usb.Identity.{Registration}
use ash_password_manager.Usb.Lookup.{Udisks, find_and_mount_vault}

-- A set of vault ids, each once, in no order that matters.
abbrev pub has : Bytes → List Bytes → Bool
has v vs = any (same_bytes v) vs

abbrev pub add : Bytes → List Bytes → List Bytes
add v vs = if has v vs then vs else v ∷ vs

unfoldable pub compute_newly_connected_vaults : List Bytes → List Bytes → List Bytes
compute_newly_connected_vaults previous current = keep (λ v. not (has v previous)) current

-- A registered vault, with what UDisks2 answers to its lookup: nothing when the lookup raises.
pub record Watched : Type 0 where
  pub vault_id : Bytes
  pub registration : Registration
  pub answers : Option Udisks

-- What a poll meets: no UDisks2 for the first snapshot, or the registered vaults.
pub data Poll : Type 0 where
  unavailable : Poll
  sees : List Watched → Poll

abbrev pub is_connected : Udisks → Registration → Bool
unfolding find_and_mount_vault
is_connected u reg = is_some ((find_and_mount_vault u reg).0)

-- The loop over the vaults; a lookup that raises ends it.
abbrev pub connected_from : List Bytes → List Watched → Option (List Bytes)
connected_from found [] = some found
connected_from found (w ∷ ws) = elim w.answers [
  | none ↦ none
  | some u ↦
      connected_from (if is_connected u w.registration then add w.vault_id found else found) ws
]

pub record Agent : Type 0 where
  pub previously_connected : List Bytes

abbrev pub new_agent : Agent
new_agent = record { previously_connected = [] }

unfoldable pub take_over : Agent → Option (List Bytes) → List Bytes × Agent
unfolding compute_newly_connected_vaults
take_over a none = ([], a)
take_over a (some current) = (
  compute_newly_connected_vaults a.previously_connected current,
  record a { previously_connected = current },
)

-- The vaults for which a sign-in is started, and the agent after that.
unfoldable pub handle_blocks : List Watched → Agent → List Bytes × Agent
unfolding take_over
handle_blocks ws a = take_over a (connected_from [] ws)

unfoldable pub poll_once : Poll → Agent → List Bytes × Agent
unfolding handle_blocks
poll_once unavailable a = ([], a)
poll_once (sees ws) a = handle_blocks ws a

-- The command beside the interpreter if it is a file there, else the one on the path.
abbrev pub sign_in_command : Bytes → Bool → List Bytes
sign_in_command sibling is_file =
    (if is_file then sibling else codes "ash-password-manager") ∷ codes "sign-in" ∷ []

-- The commands that a poll runs. One that cannot be started is logged, and the others follow.
abbrev pub spawned : List Bytes → List Bytes → List (List Bytes)
spawned command [] = []
spawned command (v ∷ vs) = command ∷ spawned command vs

-- The backend that gets the hotkey again, if any does.
abbrev pub backend_called : Bytes → List Bytes → Option Bytes
backend_called name [] = none
backend_called name (b ∷ bs) =
    let rest = backend_called name bs in if same_bytes b name then some b else rest

abbrev pub reapplied_backend : Bytes → Bytes → List Bytes → Option Bytes
reapplied_backend [] backend bs = none
reapplied_backend (c ∷ cs) [] bs = none
reapplied_backend (c ∷ cs) (d ∷ ds) bs = backend_called (d ∷ ds) bs

-- Without the monitor nothing is polled.
unfoldable pub start_agent : Bool → Poll → Agent → Bool × (List Bytes × Agent)
unfolding poll_once
start_agent false p a = (false, ([], a))
start_agent true p a = (true, poll_once p a)
