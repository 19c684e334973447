-- ===== src/Core.antt =====
-- liquid-rust-core: resolved signatures and their well-formedness check.
pub mod Ty
pub mod Ir
pub mod Wf
