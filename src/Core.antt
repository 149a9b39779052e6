-- ===== src/Core.antt =====
-- src/keymap_core: the platform-agnostic core that turns key events into mapping decisions.
pub mod Rules
pub mod Tracker
pub mod Lookup
pub mod Engine
pub mod Emission
pub mod Cache
