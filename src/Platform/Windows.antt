-- ===== src/Platform/Windows.antt =====
-- src/platform/windows: the Windows backend.
pub mod Keycode
pub mod Hook
