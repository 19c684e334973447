-- ===== src/Examples/Driver.antt =====
-- A run of the lowering of liquid-rust-driver.
use liquid_rust.Base.{ℕ, [], ◌∷◌, map, Option, some, ◌≡◌, refl, ok}
use liquid_rust.Base.Int.{ℤ}
use liquid_rust.Core.Ir as Ir
use liquid_rust.Driver.Mir as Mir
use liquid_rust.Driver.Lowering.{lower}
use liquid_rust.Driver.Lowering.Flow.{ir_block_successors, mir_block_successors, lower-successors}

-- A compiler in which every type has four bytes, a scalar is its bits, and nothing is called.
abbrev size_of : Mir.Ty → Option ℕ
size_of ty = some 4

abbrev to_bits : ℕ → ℕ → Option ℕ
to_bits scalar size = some scalar

abbrev operand_ty : Mir.Operand ℕ → Mir.Ty
operand_ty op = Mir.Ty.other

-- `_0 = const 7_i32; goto -> bb1`, then `return`
abbrev body : Mir.Body ℕ
body = record {
  basic_blocks =
      record {
        statements =
            Mir.Statement.assign (record { local = 0; projection = [] })
              (Mir.Rvalue.use_op (Mir.Operand.constant (Mir.Constant.scalar 7 (Mir.Ty.int 32))))
            ∷ [];
        terminator = some (Mir.Terminator.goto 1);
      }
      ∷ (record { statements = []; terminator = some Mir.Terminator.return } ∷ []);
  arg_count = 0;
  local_decls = 1;
}

abbrev lowered : Ir.Body
lowered = record {
  basic_blocks =
      record {
        statements =
            Ir.Statement.assign (record { local = 0; projection = [] })
              (Ir.Rvalue.use_op (Ir.Operand.constant (Ir.Constant.int (ℤ.pos 7) 32)))
            ∷ [];
        terminator = some (Ir.Terminator.goto 1);
      }
      ∷ (record { statements = []; terminator = some Ir.Terminator.return } ∷ []);
  arg_count = 0;
  nlocals = 1;
}

body_lowers : lower size_of to_bits operand_ty body ≡ ok lowered
unfolding lower
body_lowers = refl

lower-successors_example :
    map ir_block_successors lowered.basic_blocks ≡ map mir_block_successors body.basic_blocks
lower-successors_example = lower-successors size_of to_bits operand_ty body lowered body_lowers
