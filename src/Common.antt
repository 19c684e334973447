-- ===== src/Common.antt =====
-- liquid-rust-common: collection of errors, fresh indices, disjoint sets and the indenting writer.
pub mod Format
pub mod Iter
pub mod DisjointSets
pub mod IndexGen
