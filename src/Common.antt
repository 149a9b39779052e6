-- ===== src/Common.antt =====
-- src/common: the data that every part of the program shares.
pub mod Str
pub mod Modifier
pub mod HidUsage
pub mod Keyboard
pub mod Config
pub mod Frame
pub mod KeyEvents
