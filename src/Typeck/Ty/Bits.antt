-- ===== src/Typeck/Ty/Bits.antt =====
-- Constants from the bits of a scalar, liquid-rust-typeck/src/ty.rs.
use liquid_rust.Base.{
  ℕ, ◌+◌, ◌^◌, ◌<◌, ◌≤◌, ◌≡◌, refl, Returns, returns, arith, ltb, Bool-cases, inl, inr,
}
use liquid_rust.Fixpoint.Constraint.{Sign, Constant}
use liquid_rust.Typeck.Ty.{IntTy, Expr, BaseTy, from_bits}

-- `Represents bits e`: the constant `e` is the 128-bit two's complement number of these bits.
pub data Represents (bits : ℕ) : Expr → Type 0 where
  nonnegative :
      {n : ℕ}
      → n ≡ bits
      → n < 2 ^ 127
      → Represents bits (Expr.constant (Constant.int Sign.positive n))
  negative :
      {n : ℕ}
      → n + bits ≡ 2 ^ 128
      → n ≤ 2 ^ 127
      → Represents bits (Expr.constant (Constant.int Sign.negative n))

-- The bits of a constant of a signed type are read as a 128-bit two's complement number, whatever the
-- width of the type. The build is one without overflow checks, where the least number is negated too.
pub from_bits-Represents :
    (i : IntTy) (bits : ℕ)
    → bits < 2 ^ 128
    → Returns (Represents bits) (from_bits (BaseTy.int i) bits)
unfolding from_bits
from_bits-Represents i bits h = elim (Bool-cases (ltb bits (2 ^ 127))) [
  | inl e ↦ rw e (returns (nonnegative refl (ground arith)))
  | inr e ↦ rw e (returns (negative (ground arith) (ground arith)))
]
