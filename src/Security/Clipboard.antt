-- ===== src/Security/Clipboard.antt =====
-- src/passman/core/security/clipboard.py: copy a secret, and clear it later if it is still there.
-- The manager's fields stand beside the desktop's clipboard, which other programs write too.
pub mod Clearing
pub mod Ownership
use ash_password_manager.Common.{
  ℕ, suc, ◌==◌, Bool, true, false, not, Option, none, some, List, [], ◌∷◌, Bytes, same_bytes, ltb,
  if◌then◌else◌,
}

-- The arguments of a `threading.Timer` for `_clear_if_unchanged`.
pub record Timer : Type 0 where
  pub generation : ℕ
  pub digest : Bytes

-- `contents` is what `wl-paste` would print, `none` if nothing is offered. `started` and `copied` list
-- the timers started and the texts copied so far, the latest first; the code does not read them.
pub record Desk : Type 0 where
  pub generation : ℕ
  pub timer : Option Timer
  pub expected_digest : Option Bytes
  pub contents : Option Bytes
  pub started : List Timer
  pub copied : List Bytes

-- What the programs of wl-clipboard do when they are run: `none` stands for an exception, `some false`
-- for a return code that is not 0. A `wl-copy` that fails may leave anything on the clipboard;
-- `cleared_anyway` says that a `wl-copy --clear` that fails, by its time limit for one, has cleared.
-- `written_between` is what another program puts on the clipboard after `wl-paste` has read it and
-- before `wl-copy --clear` runs, if any does: the manager's lock does not keep it out.
pub record Tools : Type 0 where
  pub available : Bool
  pub copy_runs : Bool
  pub left_by_copy : Option Bytes
  pub paste_runs : Option Bool
  pub clear_runs : Bool
  pub cleared_anyway : Bool
  pub written_between : Option (Option Bytes)

pub data CopyStatus : Type 0 where
  copied not_installed copy_failed : CopyStatus

unfoldable pub new_desk : Option Bytes → Desk
new_desk contents = record {
  generation = 0;
  timer = none;
  expected_digest = none;
  contents = contents;
  started = [];
  copied = [];
}

abbrev is_positive : Option ℕ → Bool
is_positive none = false
is_positive (some t) = ltb 0 t

module _ (sha256 : Bytes → Bytes) where
  -- The timer is cancelled, and a new one started, only once `wl-copy` has succeeded.
  pub copy_done : Bytes → Option ℕ → Desk → Desk
  copy_done text timeout d =
      let gen = suc d.generation in
      let digest = sha256 text in
      let t : Timer = record { generation = gen; digest = digest } in
      if is_positive timeout
      then record d {
        generation = gen;
        timer = some t;
        expected_digest = some digest;
        contents = some text;
        started = t ∷ d.started;
        copied = text ∷ d.copied;
      }
      else record d {
        generation = gen;
        timer = none;
        expected_digest = some digest;
        contents = some text;
        copied = text ∷ d.copied;
      }

  unfoldable pub copy : Tools → Bytes → Option ℕ → Desk → CopyStatus × Desk
  unfolding copy_done
  copy tools text timeout d =
      if not tools.available
      then (not_installed, d)
      else if not tools.copy_runs
      then (copy_failed, record d { contents = tools.left_by_copy })
      else (copied, copy_done text timeout d)

  -- What is on the clipboard when `wl-copy --clear` starts.
  abbrev between : Option (Option Bytes) → Option Bytes → Option Bytes
  between none contents = contents
  between (some contents) old = contents

  -- `wl-paste -n` fails where nothing is offered.
  pasted : Option Bool → Option Bytes → Tools → Bytes → Desk → Desk
  pasted none contents tools expected d = d
  pasted (some false) contents tools expected d = record d { expected_digest = none }
  pasted (some true) none tools expected d = record d { expected_digest = none }
  pasted (some true) (some bytes) tools expected d =
      if not (same_bytes (sha256 bytes) expected)
      then record d { expected_digest = none }
      else if tools.clear_runs
      then record d { contents = none; expected_digest = none }
      else record d {
        contents =
            if tools.cleared_anyway then none else between tools.written_between (some bytes);
      }

  unfoldable pub clear_owned : Tools → Bytes → Desk → Desk
  unfolding pasted
  clear_owned tools expected d = pasted tools.paste_runs d.contents tools expected d

  clear_expected : Tools → Option Bytes → Desk → Desk
  clear_expected tools none d = d
  clear_expected tools (some expected) d = clear_owned tools expected d

  unfoldable pub clear_now : Tools → Desk → Desk
  unfolding clear_expected clear_owned
  clear_now tools d =
      clear_expected tools d.expected_digest
        (record d { timer = none; generation = suc d.generation })

  -- The callback of a timer, with the arguments that the timer was started with.
  unfoldable pub clear_if_unchanged : Tools → Timer → Desk → Desk
  unfolding clear_owned
  clear_if_unchanged tools t d =
      if not (t.generation == d.generation)
      then d
      else record (clear_owned tools t.digest d) { timer = none }

unfoldable pub cancel_pending_clear : Desk → Desk
cancel_pending_clear d = record d { timer = none; generation = suc d.generation }
