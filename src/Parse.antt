-- ===== src/Parse.antt =====
-- cpp/m3_parse.c: a module per group of sections. `walk` stands for `CompileBlockStatements` of
-- cpp/m3_compile.c without a runtime: what it leaves behind the expression, or its error.
pub mod Types
pub mod Functions
pub mod Imports
pub mod Data
pub mod Names
pub mod Sections
pub mod Validity
pub mod Interning
pub mod PayloadValidity
pub mod ModuleValidity
pub mod Order
mod Tests
