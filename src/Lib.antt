-- ===== src/Lib.antt =====
-- keymapper: a daemon that remaps the keys of keyboards by the rules of a configuration.
--
-- The parts. The configuration (src/common/config.rs) names its keys by HID usages
-- (src/common/hid_usage.rs, src/common/modifier.rs) and selects keyboards by specifiers
-- (src/common/keyboard.rs). It is compiled into a lookup cache (src/keymap_core/mapping_cache.rs),
-- which the runtime state of the daemon (src/daemon/state.rs) holds and serves through the trait
-- `Lookup` (src/keymap_core/lookup.rs). For every key event of a keyboard the mapping engine
-- (src/keymap_core/engine.rs) asks that lookup and decides; a decision becomes a plan of emissions
-- (src/keymap_core/emission.rs), which a backend carries out. On Linux a keyboard is grabbed, its
-- events are decoded (src/platform/linux/capture.rs) and decided
-- (src/platform/linux/mapping/device.rs), and the outputs are written to a virtual keyboard. On macOS
-- the outputs travel to another process in frames (src/platform/macos/ipc_frame.rs in
-- src/common/frame.rs). On Windows they are injected, and a ledger tells the hook which events are
-- its own (src/platform/windows/mapping.rs).
--
-- The files.
--   Prelude, Bits: lists, finite sets and maps, tests, and the bits of the `u8` masks.
--   Common/Str: strings as lists of bytes.
--   Common/Modifier, Common/HidUsage, Common/Keyboard, Common/Config, Common/Frame: the files of
--     src/common of those names.
--     Common/Frame/Reader is `FrameReader`, for a stream that is a list of chunks and errors: Resume
--     is about its loop, Pending and Exact about what a call takes, Progress about streams that deliver.
--   Common/KeyEvents: `KeyEvent` of src/common/config.rs, its canonical form and its parser.
--   Core/Rules, Core/Cache: src/keymap_core/mapping_cache.rs. Core/Cache/Expand and Variants are
--     about the masks of a trigger, Core/Cache/Precedence about the order of the rules.
--   Core/Lookup: src/keymap_core/lookup.rs.
--   Core/Tracker, Core/Engine: src/keymap_core/engine.rs, `KeyTracker` and `MappingEngine`, with an
--     operation of the same name for each method. Core/Engine/Inv is the invariant, Up, Fire and
--     Down its preservation, Run histories of events, Pairing and CleanTap what single decisions
--     promise, and Grab the notes on keys that are held at the start.
--   Core/Emission: src/keymap_core/emission.rs.
--   Daemon/State: src/daemon/state.rs.
--   Platform/Backend: src/platform/backend.rs.
--   Platform/IpcFrame: src/platform/macos/ipc_frame.rs; Stream is a stream of batches.
--   Platform/Linux/Keycode, Platform/Windows/Keycode, Platform/Macos/Keycode: the keycode.rs of each
--     system.
--   Platform/Linux/Capture: src/platform/linux/capture.rs.
--   Platform/Linux/Output: the virtual keyboard, of src/platform/linux/mapping/device.rs and mod.rs.
--     State is about the keys that are down on it, Masks about the codes of a mask, Tap, Hold and
--     Failure about its operations.
--   Platform/Linux/Device: the managed keyboards of device.rs. Plain, Events and Written are about
--     batches of events, Startup is the takeover of held keys and Held its invariant, Bitmap the key state of the
--     kernel, Lifecycle the passes of the event loop (mod.rs), with Passes and TakeOver.
--   Platform/Macos/RateLimit: `FrameRateLimiter` of src/platform/macos/ipc_server.rs.
--   Platform/Windows/Hook: the sleep budget and the ledger of src/platform/windows/mapping.rs.
--     Budget is about the sleeps of a callback, Ledger and Fresh about the ledger.
--   Examples: concrete runs.
--
-- How the code is read. An operation on `&mut self` is a function from the state to the new state
-- and the result. A `u8` mask is a natural number; `1 << bit` is `2 ^ bit` for bits below 8, and
-- `!m` is `255 - m % 256`. `BTreeSet` and `BTreeMap` are lists without order, since the program only
-- asks for single keys; the keys are any type with decidable equality. The engine's shared lookup
-- is given with each event, so a history may reload the rules between any two events. Every
-- recursion is structural, so there is no fuel.
--
-- Parameters. `to_lowercase : Str → Str` is the standard library's folding to lowercase, about
-- which nothing is assumed. `trim : Str → Str` is the standard library's too, and is only assumed
-- to leave the canonical names of the keys as they are. The name of the focused application is an
-- argument of the lookups that ask for it. `usage_of` gives the usage that each physical key
-- reports; the engine's invariant is about keyboards on which it does not change.
--
-- The systems around the program are environments, given as data. A stream is the list of what its
-- reads deliver, chunks of bytes or errors. The virtual device of evdev is the list of the events
-- written so far and the outcomes of the writes to come, and a write that fails writes nothing; its
-- theorems say for which outcomes they hold. An input device is the list of the events that it
-- delivers, and the release window the list of its reads up to the deadline, so its loop ends with the
-- list. An `i32` value of an event is the number that `as u32` makes of it, and `msc_scan` is the code
-- of the scan events. On Windows the instants are given with each operation, in nanoseconds, and are
-- not assumed to be in order; a sleep lasts as long as it is asked to and an overshoot that is given
-- with it.
--
-- Not modelled: YAML, files, sockets, threads and the log lines; epoll, hot-plugging, grabbing and
-- draining of the event devices; the list of keyboards; the event tap and the virtual keyboard of
-- macOS; the hook itself and raw input on Windows; the control commands; the command line. These are
-- calls of the operating systems or of other packages, or are left for later.
pub mod Prelude
pub mod Bits
pub mod Common
pub mod Core
pub mod Daemon
pub mod Platform
pub mod Examples
