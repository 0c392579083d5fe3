-- ===== src/Lib.antt =====
-- The on-device agent of MU5250-Wireguard, in Rust: its state machines, transactions, checks and
-- formats, with the theorems that make them correct.
--
-- Parts, and the files that model them (paths from the repository's root):
-- - Charge: agent/src/charge_policy.rs. `ChargeLimitEnforcer` is `LimitState`, the trait `Charger`
--   a record over a world, and `new`, `reconcile`, `update`, `run` are its methods; the firmware
--   behind the trait is Charge/Hardware.
-- - Auth: agent/src/auth.rs. `AuthState` with its logins (`login_password`, `login_pin`), tokens
--   (`validate`), the salt file, and Auth/Hex for `hex_encode` and `hex_decode`.
-- - Uci: agent/src/uci_transaction.rs. `execute` over the trait `Backend`; Uci/Stage is `UciStage`.
-- - Lan: agent/src/lan_policy.rs. `apply_devices`, `validate_selection` and `commit_change`, which
--   the gateway features share.
-- - Wireguard: agent/src/wireguard.rs. Wireguard/Tunnel is `Tunnel` and `parse`, Wireguard/Settings
--   is `Settings` with `profile_edit` and `validate`, Wireguard/Edits is `edited`, `load` and
--   `config_text`. It uses Lan for the routing mode and its devices. Wireguard/Gateway is `apply` and
--   `update`, over a router whose commands are a record of actions, `Device`.
-- - Singbox: agent/src/singbox.rs. Singbox/Runtime is `runtime` and `forbidden`, Singbox/Settings and
--   Singbox/Edits are the profiles with `profile_edit`, `edited`, `validate` and `load`, and
--   Singbox/Gateway is `install`, `apply`, `collect_garbage` and `update` over a `Device`.
-- - Gateways: the updates of both gateways in any order. Each looks at the other's settings file, and
--   the lock `GATE` lets one update run at a time.
-- - Shortcut: agent/src/screen_shortcut.rs, the state machines `Gesture` and `Corner`.
-- - Cache: agent/src/cache.rs, `Cached` and `Observed`.
-- - EventBus: agent/src/event_bus.rs. `subscribe`, `read_events` and `dispatch` into the queues.
-- - Validate: agent/src/validate.rs, the limits on a JSON value from a client.
-- - Csv: `csv_escape` and `str_field` of agent/src/csv_utils.rs, and the rows of
--   agent/src/connection_logger.rs.
-- - AtPort: `detect` of agent/src/at_cmd.rs, over what each port answers.
-- - Sms: agent/src/sms.rs, the checks, `wait_for_command` with its twenty rounds, and `sms_delete`.
-- - Usb: agent/src/usb.rs. Usb/Gadget is `GadgetSnapshot`, `with_rollback` and
--   `transactional_switch`, Usb/Wait the readiness wait (with a round per step of its interval and
--   one more as fuel, which its theorem shows to be enough), Usb/Modes the kept mode and the two
--   requests, Usb/Switch the switches themselves and Usb/Switch/Boot the enforcement at boot.
-- - LanChange: agent/src/lan.rs with `validate_lan_settings` and the handlers of a change in
--   agent/src/router.rs. LanChange/Manager is `LanManager` over the trait `Backend`, a method a
--   function on the manager, its listener and the device; `Request` and `run` are the steps that
--   the handlers and the thread of a change can take in any order. LanChange/Bits has the operations
--   on 32-bit numbers, digit by digit, and LanChange/Subnet, LanChange/Usable and LanChange/Valid
--   the arithmetic behind the checks. The files of agent/src/storage.rs are a part of its device.
-- - Server: agent/src/server.rs. Server/Gate is `handle_request` up to the handler, Server/Routes
--   the table of `route`, Server/Origin the origins, Server/Console the AT console and Server/Ttl
--   the time to live. It uses Auth for the tokens; the handlers are a parameter.
-- - Runner: process-runner/src/lib.rs, `output` for Unix with `drain`. The loop takes a number of
--   turns as fuel, and its theorem says how many are enough.
-- - Json: the values of serde_json.
--
-- How the code is modelled. A type with a lock is a record, and a method that holds the lock is a
-- function from the record to a new one. What the code calls outside the repository (ubus, sysfs,
-- files, hashes, the JSON reader) is a parameter: an action on a world `W`, of which a theorem
-- assumes only the laws it names. Time is an argument. Text is the list of its bytes; literals are
-- ASCII, and the standard library's operations on text are modelled on ASCII. `u32` and `u64`
-- arithmetic wraps where the source may pass the width. An error is a constructor for its message.
--
-- Not modelled: process and thread creation, sleeping, logging, and the parts of the agent that
-- pass a request on to the firmware and its answer back.
pub mod Base
pub mod Json
pub mod Charge
pub mod Auth
pub mod Uci
pub mod Lan
pub mod Wireguard
pub mod Shortcut
pub mod Cache
pub mod Validate
pub mod EventBus
pub mod Csv
pub mod AtPort
pub mod Sms
pub mod Usb
pub mod LanChange
pub mod Server
pub mod Singbox
pub mod Gateways
pub mod Runner
