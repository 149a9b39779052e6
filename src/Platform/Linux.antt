-- ===== src/Platform/Linux.antt =====
-- src/platform/linux: the Linux backend.
pub mod Keycode
pub mod Capture
pub mod Output
pub mod Device
