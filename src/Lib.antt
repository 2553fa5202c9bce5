-- ===== src/Lib.antt =====
-- The core of WEBADBControl: the Rust crate core/crates/adbcontrol-core, which lets a browser or an
-- Android client control Android devices. The crate does eight things that this library models.
--
-- * It pairs Android companions and keeps the trusted ones (src/companion/trust.rs of the crate):
--   Trust. A `CompanionTrustStore` is `TrustStore`, its two `HashMap`s are `Map`s; `begin_pairing`,
--   `confirm_pairing`, `is_trusted` and `revoke_device` keep their names. Trust/Fingerprint has the
--   validations and `normalize_fingerprint`; Trust/Store has the JSON file. Trust/Log runs any
--   sequence of calls, and Trust/Safety, Trust/Attempts, Trust/Pairing, Trust/Invariant and
--   Trust/Store/Recovery hold the proofs.
-- * It keeps the accounts and sessions of the remote users (src/remote/auth.rs): Remote.
--   Remote/Accounts has the data, the validations and the passwords, Remote/Storage the database
--   file and `RemoteAccountManager` as `Manager`, Remote/Auth the manager's methods. Remote/Auth/Log
--   runs any sequence of calls; the proofs are in the other children of Remote/Auth.
-- * It serves the requests of remote users (src/remote/service.rs): Remote/Service has
--   `RemoteControlService::handle_request` and its handlers, Remote/Authorize the check of what is
--   passed on to Core (`authorize_user_core_request`), Remote/Identity the ids that name one device.
--   Remote/Forward passes a request on (`forward_core_request`), Remote/Devices makes the device list
--   that a user is shown, and Remote/Diagnostics writes what a client reports. Remote/Service/Served
--   says which of the account manager's methods a request calls, and Remote/Service/Admission and
--   Remote/Service/Forwarding what is refused and what goes on.
-- * It serves the local administrator (src/remote/local_admin.rs): Remote/LocalAdmin has
--   `LocalAdminService::handle_request` and its handlers on the same account manager. Remote/History
--   is any sequence of remote and local requests.
-- * It answers the local process that runs it (src/protocol.rs): Ipc has the requests, the responses
--   and serde_json, Ipc/Host what `CoreService` holds and what it asks of its host, Ipc/Handlers the
--   handlers that only read, and Ipc/Core those that change its state and the choice of the handler,
--   `core_handle_request`; Ipc/Lines reads and writes lines (src/ipc/stdio.rs). It calls the
--   keep-alive, the pairing, the scrcpy processes, the registry, the companion router and the local
--   administrator's service.
-- * It keeps what each companion announced (src/capability.rs and src/companion/protocol.rs,
--   registry.rs, session.rs, ingress.rs): Companion/Capability is the catalog, Companion/Protocol the
--   envelope and its check, Companion/Registry the devices that Core shows, Companion/Session and
--   Companion/Session/Handlers the session manager, Companion/Ingress the dispatch by kind.
--   Companion/MediaStore keeps the chunks of media streams (src/companion/media_store.rs), and
--   Companion/TrustedIngress asks the trust store first (src/companion/trusted_ingress.rs).
-- * It owns the live connections (src/companion/quinn_transport.rs): Companion/Live has the state of
--   `LiveCompanionTransport`, `accept_envelope` and the two `disconnect`s; Companion/Live/Send has
--   `send_command_envelope`, as the step that queues the command and the steps that end it.
--   `accept_envelope` calls the ingress, the ingress the session manager, and what the session
--   manager holds is written to the registry. Companion/Router has the routers that make a command's
--   envelope (src/companion/router.rs); Companion/Router/Requests joins them to the transport.
-- * It runs adb (src/keepalive.rs, wireless.rs, adb.rs, platform.rs, assets.rs): Adb. Adb/KeepAlive is
--   the status that the keep-alive thread shares and its loop, as steps; Adb/Wireless is
--   `WirelessPairingManager`, with the texts that adb prints walked in Adb/Wireless/Lines;
--   Adb/Scrcpy checks a scrcpy configuration and builds the command, Adb/Processes is the table of the
--   processes that run such commands (`AdbProcessManager`); Adb/Platform finds the adb binary of the
--   host. What adb answers is an argument.
--
-- Error is `AppError` and `Result` (src/error.rs). Base passes on the names of the libraries; it has
-- the Boolean tests, lists over the native numbers, texts, and maps with text keys.
--
-- How the code is read. A method that changes `self` returns its result and the new state. The
-- clock, drawn random numbers, and the answers of the disk are arguments. argon2, serde_json and the
-- standard library's table of lower-case letters are parameters; where a theorem relies on one, the
-- hypothesis says so: that a decoder reads back what was encoded (`Decodes`), that a field of a
-- built object can be read (`Reads`), how an object's members are read back (`Members`), and that
-- argon2 accepts a password for its own hash (`Verifies`). A `u64` sum keeps its wrap-around. A lock is
-- never poisoned, since no code that holds one panics. All loops are over a list or a map and are
-- structural recursion, so no fuel is needed; the printers of numbers are given the number of
-- digits of the type.
--
-- Not modelled: the asynchronous connection loops and framing, TLS identity, the lines of the
-- diagnostics other than those a client reports, the texts of the remote service's own JSON answers,
-- the Android companion app, the Go server and the web client. The order in which a `HashMap` is
-- iterated is that of its keys here; no
-- theorem depends on it.
pub mod Adb
pub mod Base
pub mod Companion
pub mod Error
pub mod Ipc
pub mod Remote
pub mod Trust
