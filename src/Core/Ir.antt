-- ===== src/Core/Ir.antt =====
-- The intermediate representation of liquid-rust-core/src/ir.rs. Locals, blocks and `SwitchTargets`
-- are rustc's: the code passes them on. A block target list is the list of its values and blocks.
pub mod Locals
use liquid_rust.Base.{ℕ, Bool, List, Option, ◌+◌, ◌-◌, suc, zero, [], ◌∷◌}
use liquid_rust.Base.Int.{ℤ}
use liquid_rust.Core.Ty as Core
use liquid_rust.Typeck.Ty.{DefId, IntTy, Local}

abbrev pub BasicBlock : Type 0
BasicBlock = ℕ

-- The values that are compared and their blocks, and the block for all other values.
pub record SwitchTargets : Type 0 where
  pub targets : List (ℕ × BasicBlock)
  pub otherwise : BasicBlock

pub data UnOp : Type 0 where
  not neg : UnOp

pub data BinOp : Type 0 where
  gt lt le eq ne add sub mul div : BinOp

pub data PlaceElem : Type 0 where
  deref : PlaceElem

pub record Place : Type 0 where
  pub local : Local
  pub projection : List PlaceElem

pub data Constant : Type 0 where
  int : ℤ → IntTy → Constant
  uint : ℕ → IntTy → Constant
  bool : Bool → Constant

pub data Operand : Type 0 where
  copy : Place → Operand
  move : Place → Operand
  constant : Constant → Operand

pub data Rvalue : Type 0 where
  use_op : Operand → Rvalue
  mut_ref : Place → Rvalue
  binary_op : BinOp → Operand → Operand → Rvalue
  unary_op : UnOp → Operand → Rvalue

pub data Statement : Type 0 where
  assign : Place → Rvalue → Statement
  nop : Statement

pub data Terminator : Type 0 where
  return : Terminator
  call : DefId → List Core.Ty → List Operand → Option (Place × BasicBlock) → Terminator
  switch_int : Operand → SwitchTargets → Terminator
  goto : BasicBlock → Terminator
  drop : Place → BasicBlock → Terminator

pub record BasicBlockData : Type 0 where
  pub statements : List Statement
  pub terminator : Option Terminator

pub record Body : Type 0 where
  pub basic_blocks : List BasicBlockData
  pub arg_count : ℕ
  pub nlocals : ℕ

-- The locals from `first` on, `count` of them.
abbrev pub locals : ℕ → ℕ → List Local
locals first zero = []
locals first (suc count) = first ∷ locals (suc first) count

-- Local 0 is the place of the result, then come the arguments.
unfoldable pub args_iter : Body → List Local
args_iter body = locals 1 body.arg_count

unfoldable pub vars_and_temps_iter : Body → List Local
vars_and_temps_iter body = locals (body.arg_count + 1) (body.nlocals - (body.arg_count + 1))
