-- ===== src/Core.antt =====
-- cpp/m3_core.c: value types and the readers of the binary format.
pub mod ValueType
pub mod Read
pub mod Leb
pub mod Loop
pub mod Utf8
