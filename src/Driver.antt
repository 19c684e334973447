-- ===== src/Driver.antt =====
-- liquid-rust-driver: from the compiler's representation to that of liquid-rust-core.
pub mod Mir
pub mod Lowering
pub mod Hir
pub mod ScopeMap
pub mod Diagnostics
pub mod Subst
pub mod Collect
pub mod Resolve
