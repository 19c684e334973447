-- ===== src/Lib.antt =====
-- Liquid Rust checks Rust functions against refinement types: it resolves and checks annotated
-- signatures, lowers the compiler's MIR to an intermediate representation, generates constraints
-- from subtyping, and asks an external solver whether they hold. This library models the crates'
-- own logic in the order of that pipeline.
--
-- Parts, and the files that model them:
-- - Base (helpers): `Outcome` is a value, a returned `ErrorReported`, or a panic (`unwrap` of `None`,
--   `unreachable!`, `todo!`, a missing key, a failed assertion). `Returns P m` says that `m` gives a
--   value of which `P` holds.
-- - Common/Format: `PadAdapter` of liquid-rust-common/src/format.rs. Common/Iter: `IterExt` of
--   liquid-rust-common/src/iter.rs. Common/IndexGen: `IndexGen` of liquid-rust-common/src/index.rs.
--   Common/DisjointSets: `DisjointSetsMap` of liquid-rust-common/src/disjoint_sets.rs.
-- - Fixpoint/Constraint: the solver's language of liquid-rust-fixpoint/src/constraint.rs.
--   Fixpoint/Display: its text, and that of the query of liquid-rust-fixpoint/src/lib.rs.
-- - Core/Ty, Core/Ir: resolved signatures and the intermediate representation of liquid-rust-core/src.
--   Core/Wf: the sort checker `Wf` of liquid-rust-core/src/wf.rs.
-- - Syntax: the syntax tree of liquid-rust-syntax/src/ast.rs. Driver/Hir: the part of HIR that the
--   resolver looks at. Driver/Diagnostics, Driver/Subst, Driver/Collect and Driver/Resolve: the
--   `Diagnostics`, `Subst`, `collect_res` and `Resolver` of liquid-rust-driver/src/resolve.rs, over the
--   interface Driver/ScopeMap of a layered map; Resolve/Signature is `resolve` and `run`.
-- - Driver/Mir, Driver/Lowering: the part of MIR that is looked at, and `LoweringCtxt` of
--   liquid-rust-driver/src/lowering.rs.
-- - Typeck/Ty: refinement types of liquid-rust-typeck/src/ty.rs; Typeck/Ty/Meaning is their meaning in
--   any structure that interprets constants and operators. Typeck/Builder: `ConstraintBuilder`,
--   `Cursor` and `Node` of liquid-rust-typeck/src/constraint_builder.rs; Builder/Subtyping generates
--   constraints, Builder/Translate sends them to the solver's language. Typeck/Lowering: `Subst` of
--   liquid-rust-typeck/src/lowering.rs, which instantiates a signature at a call. Builder/Along says
--   what it is for something to hold at the place of a cursor, under the binders and guards above it;
--   Builder/Soundness holds subtyping against a relation on meanings, Builder/Progress is its
--   termination.
-- - Typeck/TypeEnv: `TypeEnv` of liquid-rust-typeck/src/type_env.rs, the types of locations, with
--   TypeEnv/Levels (`levels`), TypeEnv/Join (`strg_ty_join`, `ref_weak`) and TypeEnv/Merge (`join_with`,
--   `infer_bb_env`, `transform_into`).
-- - Typeck/Checker: `Checker` of liquid-rust-typeck/src/checker.rs. Checker/Calls is `check_call`,
--   Checker/Flow the terminators, blocks and join points with `GlobalEnv` of
--   liquid-rust-typeck/src/global_env.rs, Checker/Run a whole function and `check` of
--   liquid-rust-typeck/src/lib.rs. The Keeps modules follow the constraint tree through every
--   operation; Checker/Division and Checker/Obligations say what a division, a call and a return oblige to.
-- - Examples: the theorems at concrete inputs, and runs of the code.
--
-- How state is modelled: a method with `&mut self` takes and returns the state. A cursor's pointer
-- to a node is the path of child positions from the root, and a snapshot is a copy that hands its
-- builder back when it ends. A hash map is an association list, whose order stands for the order of
-- iteration that a hash map leaves open. Interned values are their content. Spans and messages are
-- left out.
--
-- Bounds and fuel: `PadAdapter::write_str` runs on fuel, as many rounds as the text has characters,
-- since a round consumes a character at least. `Cursor::subtyping` runs on fuel above the nesting
-- of its types, which is proved enough; the environment and the checker call it with that much. The
-- joins of two environments and the levels of locations run on fuel too: they follow references
-- from location to location, and on a cycle of references the code does not return.
-- `Checker::check_goto` runs on as much fuel as blocks that are not join points follow each other.
-- A lookup in disjoint sets runs on fuel above the sum of the sizes, since no path is longer than
-- its set is large. The counter of `IndexGen` is a 64-bit word that wraps around. 128-bit integers
-- are numbers with their wrap-around written out.
--
-- Parameters: the layered maps of quickscope with the laws that its documentation states, the
-- resolutions and type parameters of HIR, the symbols `int`, `bool` and `true`, the parser of
-- 128-bit integers, rustc's layouts, bits of scalars, types of operands, variances, the
-- predecessors, dominators and order of blocks, the solver's answer, and the inner writer of
-- `PadAdapter` are arguments of the definitions that use them. So is the largest index of an index
-- type for `IndexGen`, the resolver's names and `DisjointSetsMap::push`. The counters of names of
-- `ConstraintBuilder` and of its translation, and the indices of its unknown predicates, are
-- numbers without a largest one: that `Name` and `KVid` panic above theirs is not modelled. A
-- constant's `-c` in `from_bits` wraps around, as in a build without overflow checks; debug
-- assertions are checked.
--
-- Not modelled: interning, pretty printing for diagnostics, configuration, the solver process, the
-- lexer and the generated parser, the dump of a constraint to a file, and the compiler callbacks,
-- which are glue, input and output; of the disjoint sets the iterators, `update`, `from_iter` and
-- `merge_with`.
pub mod Base
pub mod Common
pub mod Fixpoint
pub mod Typeck
pub mod Core
pub mod Driver
pub mod Examples
pub mod Syntax
