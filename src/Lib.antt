-- ===== src/Lib.antt =====
-- The core of ASH, a password manager whose vault lives on a USB drive. The files here are named for the
-- parts of the program, which are under `src/passman`.
--
-- Common holds what the parts share: Boolean tests, lists, predicates and texts (lists of code points or
-- of bytes) over the native numbers, decimal printing (Common.Decimal), the character classes of
-- Python's texts (Common.Chars), and integers (Common.Ints).
--
--   * Security.Memory, Security.Clipboard, Security.Session: `src/passman/core/security/memory.py`,
--     `src/passman/core/security/clipboard.py`, `src/passman/core/security/session.py`. A lock of the
--     session closes the vault and clears the clipboard. Threads are sequences of the operations that
--     hold the manager's lock; a timer may fire at any time, and another program may write between the two
--     commands of a clearing.
--   * Security.Logging: `src/passman/core/security/logging.py`, without the log file.
--   * Security.Strength: `src/passman/core/security/password_strength.py`.
--   * Flows.Login and Flows.Setup: `src/passman/core/flows/login_machine.py` and
--     `src/passman/core/flows/setup_machine.py`. The callables that are injected into the login flow
--     (`LoginFlow.identify`, `try_local_key`, `submit_password` call them) are fields of the flow.
--   * Crypto: `src/passman/core/crypto/`; Aead is `aead.py`, Kdf `kdf.py`, Binding `binding.py` and
--     Keyslots `keyslots.py`. AES-GCM, Argon2id, HMAC and SHA-256 are parameters; random bytes and times
--     are arguments. The fuel of the HKDF loop is the length that is asked for, since each round adds 32
--     bytes.
--   * Devices: `src/passman/core/devices/`; Container holds the slots and the records of a vault, LocalKey
--     the files of this machine for one vault (`local_key.py`, `secret_store.py`), Registry the
--     operations of `registry.py` on both, which the login's callables are made of.
--   * Usb: Identity is `src/passman/integration/usb/identity.py`, Lookup
--     `src/passman/core/flows/usb_login_lookup.py`. What lsblk and UDisks2 report is an argument.
--   * Totp: `src/passman/core/totp/totp.py`. Base32 is decoded by RFC 4648, HMAC is a parameter, and a
--     counter that needs more than 64 bits is an exception, as in the code.
--   * Recovery, Vault.Models: the reveal gate and the text of the codes of
--     `src/passman/core/recovery/codes.py`, the records of `src/passman/core/vault/models.py`.
--   * Vault.Kdbx: opening, saving and closing in `src/passman/core/vault/kdbx.py`; its History is what any
--     number of holders of handles and other programs do to one file, also during a save.
--   * Backup: `src/passman/core/backup/archive.py`; Payload is the check of the members and the packing,
--     Envelope the sealed file with the operations. Files are contents, and restoring gives the files that
--     one rename publishes.
--   * Application: the process that holds an open vault, `src/passman/ui/app.py` without what it draws, on
--     top of Security.Session and Usb.Identity: its state is the session, the callbacks that wait in the
--     main loop, and whether window, control server, watcher and loop are there. Control is the commands
--     of other processes (also the dispatch of `src/passman/launcher/ipc.py`), Closing the stages of the
--     process, History its life.
--   * Launcher: Agent is `src/passman/launcher/agent.py` with `usb_watch_logic.py` beside it, on top of
--     Usb.Lookup; Show is `daemon.py` and `ash_daemon.py`, on top of Usb.Identity and Usb.Lookup.
--   * Settings: `src/passman/config/store.py`, without the file access.
--   * Vaults: Record and Registry are the record and the operations of
--     `src/passman/core/vaults/registry.py`, on the list of records that its file holds; Health is
--     `src/passman/core/vaults/health.py`, on the files of a container.
--   * Accounts: `src/passman/core/accounts/repository.py`.
--   * Generator: Template is `src/passman/core/generator/template_engine.py`, whose index loop is a scan
--     that is inside or outside a placeholder; Random is
--     `src/passman/core/generator/random_generator.py`.
--   * Auth: `src/passman/core/auth/`; Detection is `match_confidence` of `detection.py`, Strategy the data
--     of `strategy.py` and Strategy.Json its JSON form, Editor `strategy_editor.py`. Of `engine.py`, Steps
--     is one step on the backend (`_run_step`), Checks what is checked before it, and Engine the guard
--     and `LoginEngine.run`. The backend, the clock and the checks of a run answer by a counter of the questions, so they may answer
--     differently each time. Waits are in whole milliseconds; the fuel of a wait is its length, since
--     each slice is at least one millisecond. Python's case mapping and regular expressions are
--     parameters.
--
-- In each part, the file of its name has the definitions, the files below it or beside it what is proved
-- of them, and Tests runs them at concrete inputs.
--
-- Common.Json has the values that json.loads gives, with what `[]`, `get`, `bool`, `int` and `str` do with
-- them; Common.Base64 is base64 of the standard library. Crypto.Keyslots.Dict and Crypto.Kdf.Dict are
-- `to_dict` and `from_dict`. json.loads and json.dumps themselves are parameters.
--
-- Not modelled: the JSON forms of the other records, tar files, the entries of the KDBX database and its
-- library, the creation of a vault and the set-up of a drive, the command line, the windows,
-- and the calls of D-Bus, files and other programs, whose answers are arguments.
pub mod Accounts
pub mod Application
pub mod Auth
pub mod Backup
pub mod Common
pub mod Crypto
pub mod Devices
pub mod Flows
pub mod Generator
pub mod Launcher
pub mod Recovery
pub mod Security
pub mod Settings
pub mod Totp
pub mod Usb
pub mod Vault
pub mod Vaults
