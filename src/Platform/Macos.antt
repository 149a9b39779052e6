-- ===== src/Platform/Macos.antt =====
-- src/platform/macos: the macOS backend.
pub mod Keycode
pub mod RateLimit
