-- ===== src/Driver/Mir.antt =====
-- The part of rustc's MIR that liquid-rust-driver/src/lowering.rs looks at: the constructors that its
-- matches name, with what it takes from them. Source positions are only reported, and left out.
use liquid_rust.Base.{ℕ, List, Option}
use liquid_rust.Typeck.Ty.{DefId, IntTy, ParamTy, Local}
use liquid_rust.Core.Ir.{BasicBlock, SwitchTargets, UnOp}

-- `other` is every kind that the code does not name. `GenericArgs` is a list of arguments.
mutual
  pub data Ty : Type 0 where
    bool : Ty
    int : IntTy → Ty
    uint : IntTy → Ty
    param : ParamTy → Ty
    adt : DefId → GenericArgs → Ty
    fn_def : DefId → GenericArgs → Ty
    other : Ty

  pub data GenericArg : Type 0 where
    type : Ty → GenericArg
    const : GenericArg
    lifetime : GenericArg

  pub data GenericArgs : Type 0 where
    nil : GenericArgs
    cons : GenericArg → GenericArgs → GenericArgs

pub data PlaceElem : Type 0 where
  deref other : PlaceElem

pub record Place : Type 0 where
  pub local : Local
  pub projection : List PlaceElem

-- A constant is a scalar of a type, or something else.
pub data Constant (Scalar : Type 0) : Type 0 where
  scalar : Scalar → Ty → Constant Scalar
  other : Constant Scalar

pub data Operand (Scalar : Type 0) : Type 0 where
  copy : Place → Operand Scalar
  move : Place → Operand Scalar
  constant : Constant Scalar → Operand Scalar

pub data BinOp : Type 0 where
  add sub gt lt le eq ne mul div : BinOp
  rem bit_xor bit_and bit_or shl shr ge offset : BinOp

pub data BorrowKind : Type 0 where
  mut shared : BorrowKind

pub data Rvalue (Scalar : Type 0) : Type 0 where
  use_op : Operand Scalar → Rvalue Scalar
  binary_op : BinOp → Operand Scalar → Operand Scalar → Rvalue Scalar
  ref : BorrowKind → Place → Rvalue Scalar
  unary_op : UnOp → Operand Scalar → Rvalue Scalar
  repeat thread_local_ref address_of len cast : Rvalue Scalar
  checked_binary_op nullary_op discriminant aggregate shallow_init_box : Rvalue Scalar

pub data Statement (Scalar : Type 0) : Type 0 where
  assign : Place → Rvalue Scalar → Statement Scalar
  nop storage_live storage_dead : Statement Scalar
  fake_read set_discriminant llvm_inline_asm retag : Statement Scalar
  ascribe_user_type coverage copy_non_overlapping : Statement Scalar

pub data Terminator (Scalar : Type 0) : Type 0 where
  return : Terminator Scalar
  call : Operand Scalar → List (Operand Scalar) → Option (Place × BasicBlock) → Terminator Scalar
  switch_int : Operand Scalar → SwitchTargets → Terminator Scalar
  goto : BasicBlock → Terminator Scalar
  drop : Place → BasicBlock → Terminator Scalar
  resume abort unreachable drop_and_replace assert yield : Terminator Scalar
  generator_drop false_edge false_unwind inline_asm : Terminator Scalar

pub record BasicBlockData (Scalar : Type 0) : Type 0 where
  pub statements : List (Statement Scalar)
  pub terminator : Option (Terminator Scalar)

pub record Body (Scalar : Type 0) : Type 0 where
  pub basic_blocks : List (BasicBlockData Scalar)
  pub arg_count : ℕ
  pub local_decls : ℕ
