-- ===== src/Driver/Lowering.antt =====
-- `LoweringCtxt` of liquid-rust-driver/src/lowering.rs: MIR to the intermediate representation, for the
-- supported part of MIR. The layout of a type, the bits of a scalar and the type of a called operand
-- come from rustc.
pub mod Flow
use liquid_rust.Base.{
  ℕ, ◌-◌, ◌^◌, Bool, List, [], ◌∷◌, ◌++◌, Option, none, some, Outcome, ok, reported, panicked,
  ◌>>=◌, unwrap, if◌then◌else◌, ltb, ◌==◌,
}
use liquid_rust.Base.Int.{ℤ}
use mathlib.Core.Bool.{not}
use liquid_rust.Typeck.Ty.{DefId}
use liquid_rust.Core.Ty as Core
use liquid_rust.Core.Ir as Ir
use liquid_rust.Core.Ir.{BasicBlock}
use liquid_rust.Driver.Mir as Mir

-- `iter.map(f).try_collect()`, which stops at the first error
unfoldable pub try_collect : {A B : Type 0} → (A → Outcome B) → List A → Outcome (List B)
try_collect f [] = ok []
try_collect f (a ∷ as') = do b ← f a; bs ← try_collect f as'; ok (b ∷ bs)

-- `bits as i128`, for the bits of a `u128`
abbrev pub i128_of_bits : ℕ → ℤ
i128_of_bits bits = if ltb bits (2 ^ 127) then ℤ.pos bits else ℤ.negsuc (2 ^ 128 - bits - 1)

unfoldable pub lower_projection : List Mir.PlaceElem → Outcome (List Ir.PlaceElem)
lower_projection [] = ok []
lower_projection (Mir.PlaceElem.deref ∷ elems) = do
  rest ← lower_projection elems
  ok (Ir.PlaceElem.deref ∷ rest)
lower_projection (Mir.PlaceElem.other ∷ elems) = reported

unfoldable pub lower_place : Mir.Place → Outcome Ir.Place
unfolding lower_projection
lower_place place = do
  projection ← lower_projection place.projection
  ok (record { local = place.local; projection = projection })

unfoldable pub lower_bin_op : Mir.BinOp → Outcome Ir.BinOp
lower_bin_op Mir.BinOp.add = ok Ir.BinOp.add
lower_bin_op Mir.BinOp.sub = ok Ir.BinOp.sub
lower_bin_op Mir.BinOp.gt = ok Ir.BinOp.gt
lower_bin_op Mir.BinOp.lt = ok Ir.BinOp.lt
lower_bin_op Mir.BinOp.le = ok Ir.BinOp.le
lower_bin_op Mir.BinOp.eq = ok Ir.BinOp.eq
lower_bin_op Mir.BinOp.ne = ok Ir.BinOp.ne
lower_bin_op Mir.BinOp.mul = ok Ir.BinOp.mul
lower_bin_op Mir.BinOp.div = ok Ir.BinOp.div
lower_bin_op _ = reported

unfoldable mutual
  pub lower_ty : Mir.Ty → Outcome Core.Ty
  lower_ty Mir.Ty.bool = ok (Core.Ty.exists Core.BaseTy.bool Core.Pred.infer)
  lower_ty (Mir.Ty.int i) = ok (Core.Ty.exists (Core.BaseTy.int i) Core.Pred.infer)
  lower_ty (Mir.Ty.uint i) = ok (Core.Ty.exists (Core.BaseTy.uint i) Core.Pred.infer)
  lower_ty (Mir.Ty.param p) = ok (Core.Ty.param p)
  lower_ty (Mir.Ty.adt did substs) = do
    substs' ← lower_adt_args substs
    ok (Core.Ty.exists (Core.BaseTy.adt did substs') Core.Pred.infer)
  lower_ty (Mir.Ty.fn_def did substs) = reported
  lower_ty Mir.Ty.other = reported

  pub lower_generic_arg : Mir.GenericArg → Outcome Core.Ty
  lower_generic_arg (Mir.GenericArg.type ty) = lower_ty ty
  lower_generic_arg Mir.GenericArg.const = reported
  lower_generic_arg Mir.GenericArg.lifetime = reported

  pub lower_adt_args : Mir.GenericArgs → Outcome Core.Tys
  lower_adt_args Mir.GenericArgs.nil = ok Core.Tys.nil
  lower_adt_args (Mir.GenericArgs.cons arg args) = do
    ty ← lower_generic_arg arg
    tys ← lower_adt_args args
    ok (Core.Tys.cons ty tys)

-- The arguments of a called function.
unfoldable pub lower_fn_args : Mir.GenericArgs → Outcome (List Core.Ty)
unfolding lower_generic_arg
lower_fn_args Mir.GenericArgs.nil = ok []
lower_fn_args (Mir.GenericArgs.cons arg args) = do
  ty ← lower_generic_arg arg
  tys ← lower_fn_args args
  ok (ty ∷ tys)

-- The function that is called: the match on the kind of the operand's type.
unfoldable pub lower_callee : Mir.Ty → Outcome (DefId × List Core.Ty)
unfolding lower_fn_args
lower_callee (Mir.Ty.fn_def fn_def substs) = do substs' ← lower_fn_args substs; ok (fn_def, substs')
lower_callee _ = reported

unfoldable pub lower_destination :
    Option (Mir.Place × BasicBlock) → Outcome (Option (Ir.Place × BasicBlock))
unfolding lower_place
lower_destination none = ok none
lower_destination (some (place, bb)) = do place' ← lower_place place; ok (some (place', bb))

module _ {Scalar : Type 0} (size_of : Mir.Ty → Option ℕ) (to_bits : Scalar → ℕ → Option ℕ)
    (operand_ty : Mir.Operand Scalar → Mir.Ty) where
  -- `layout_of(ty).unwrap().size`, then `to_bits(size).ok()`
  unfoldable pub scalar_to_bits : Scalar → Mir.Ty → Outcome (Option ℕ)
  scalar_to_bits scalar ty = do size ← unwrap (size_of ty); ok (to_bits scalar size)

  abbrev pub constant_of : Mir.Ty → Option ℕ → Outcome Ir.Constant
  constant_of (Mir.Ty.int i) (some bits) = ok (Ir.Constant.int (i128_of_bits bits) i)
  constant_of (Mir.Ty.uint i) (some bits) = ok (Ir.Constant.uint bits i)
  constant_of Mir.Ty.bool (some bits) = ok (Ir.Constant.bool (not (bits == 0)))
  constant_of _ _ = reported

  unfoldable pub lower_constant : Mir.Constant Scalar → Outcome Ir.Constant
  unfolding scalar_to_bits
  lower_constant (Mir.Constant.scalar scalar ty) = do
    bits ← scalar_to_bits scalar ty
    constant_of ty bits
  lower_constant Mir.Constant.other = reported

  unfoldable pub lower_operand : Mir.Operand Scalar → Outcome Ir.Operand
  unfolding lower_place lower_constant
  lower_operand (Mir.Operand.copy place) = do
    place' ← lower_place place
    ok (Ir.Operand.copy place')
  lower_operand (Mir.Operand.move place) = do
    place' ← lower_place place
    ok (Ir.Operand.move place')
  lower_operand (Mir.Operand.constant c) = do c' ← lower_constant c; ok (Ir.Operand.constant c')

  unfoldable pub lower_rvalue : Mir.Rvalue Scalar → Outcome Ir.Rvalue
  unfolding lower_operand lower_bin_op lower_place
  lower_rvalue (Mir.Rvalue.use_op op) = do op' ← lower_operand op; ok (Ir.Rvalue.use_op op')
  lower_rvalue (Mir.Rvalue.binary_op bin_op op1 op2) = do
    bin_op' ← lower_bin_op bin_op
    op1' ← lower_operand op1
    op2' ← lower_operand op2
    ok (Ir.Rvalue.binary_op bin_op' op1' op2')
  lower_rvalue (Mir.Rvalue.ref Mir.BorrowKind.mut place) = do
    place' ← lower_place place
    ok (Ir.Rvalue.mut_ref place')
  lower_rvalue (Mir.Rvalue.unary_op un_op op) = do
    op' ← lower_operand op
    ok (Ir.Rvalue.unary_op un_op op')
  lower_rvalue _ = reported

  unfoldable pub lower_statement : Mir.Statement Scalar → Outcome Ir.Statement
  unfolding lower_place lower_rvalue
  lower_statement (Mir.Statement.assign place rvalue) = do
    place' ← lower_place place
    rvalue' ← lower_rvalue rvalue
    ok (Ir.Statement.assign place' rvalue')
  lower_statement Mir.Statement.nop = ok Ir.Statement.nop
  lower_statement Mir.Statement.storage_live = ok Ir.Statement.nop
  lower_statement Mir.Statement.storage_dead = ok Ir.Statement.nop
  lower_statement _ = reported

  unfoldable pub lower_terminator : Mir.Terminator Scalar → Outcome Ir.Terminator
  unfolding lower_operand lower_place lower_callee lower_destination try_collect
  lower_terminator Mir.Terminator.return = ok Ir.Terminator.return
  lower_terminator (Mir.Terminator.call func args destination) = do
    (did, substs) ← lower_callee (operand_ty func)
    destination' ← lower_destination destination
    args' ← try_collect lower_operand args
    ok (Ir.Terminator.call did substs args' destination')
  lower_terminator (Mir.Terminator.switch_int discr targets) = do
    discr' ← lower_operand discr
    ok (Ir.Terminator.switch_int discr' targets)
  lower_terminator (Mir.Terminator.goto target) = ok (Ir.Terminator.goto target)
  lower_terminator (Mir.Terminator.drop place target) = do
    place' ← lower_place place
    ok (Ir.Terminator.drop place' target)
  lower_terminator _ = reported

  -- `.map(..).transpose()?`
  unfoldable pub lower_last : Option (Mir.Terminator Scalar) → Outcome (Option Ir.Terminator)
  unfolding lower_terminator
  lower_last none = ok none
  lower_last (some terminator) = do terminator' ← lower_terminator terminator; ok (some terminator')

  unfoldable pub lower_basic_block_data : Mir.BasicBlockData Scalar → Outcome Ir.BasicBlockData
  unfolding try_collect lower_statement lower_last
  lower_basic_block_data data' = do
    statements ← try_collect lower_statement data'.statements
    terminator ← lower_last data'.terminator
    ok (record { statements = statements; terminator = terminator })

  unfoldable pub lower : Mir.Body Scalar → Outcome Ir.Body
  unfolding try_collect lower_basic_block_data
  lower body = do
    basic_blocks ← try_collect lower_basic_block_data body.basic_blocks
    ok (record {
      basic_blocks = basic_blocks;
      nlocals = body.local_decls;
      arg_count = body.arg_count;
    })
