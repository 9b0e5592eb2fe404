-- ===== src/Compile.antt =====
-- cpp/m3_compile.c: the compiler of WebAssembly to metacode.
pub mod State
pub mod Slots
pub mod Emit
pub mod Stack
pub mod Constants
pub mod Copy
pub mod Locals
pub mod Operators
pub mod Calls
pub mod Operations
pub mod Counts
mod Tests
