-- ===== src/Examples.antt =====
-- The theorems applied to concrete inputs.
mod Common
mod Core
mod Driver
mod DisjointSets
mod Layers
mod Resolve
mod Typeck
mod Checker
mod Environment
