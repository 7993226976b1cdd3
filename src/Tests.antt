-- ===== src/Tests.antt =====
-- Test data, and the theorems of the library at concrete inputs.
pub mod Data
pub mod Demux
pub mod Codec
pub mod Layers
pub mod Reading
pub mod Pes
pub mod Ts
pub mod Window
pub mod Section
pub mod Clock
pub mod SwClient
pub mod Programs
pub mod Groups
pub mod TsParse
