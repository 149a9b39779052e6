-- ===== src/Platform.antt =====
-- src/platform: the backends for the operating systems.
pub mod Backend
pub mod IpcFrame
pub mod Linux
pub mod Windows
pub mod Macos
