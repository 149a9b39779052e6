-- ===== src/Examples.antt =====
-- The theorems at concrete inputs, and runs of the code as the unit tests of the sources have them.
mod Engine
mod Cache
mod Codecs
mod Keys
mod Keycodes
mod Streams
mod Linux
mod TakeOver
mod Windows
mod Macos
