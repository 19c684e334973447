-- ===== src/Fixpoint.antt =====
-- liquid-rust-fixpoint: Horn constraints and their printed form for the `fixpoint` solver.
pub mod Constraint
pub mod Display
