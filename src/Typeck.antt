-- ===== src/Typeck.antt =====
-- liquid-rust-typeck: refinement types, the constraints that checking generates, and their meaning.
pub mod Ty
pub mod Builder
pub mod Lowering
pub mod TypeEnv
pub mod Checker
