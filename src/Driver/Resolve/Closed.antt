-- ===== src/Driver/Resolve/Closed.antt =====
-- What it means that the resolver of liquid-rust-driver/src/resolve.rs leaves no dangling name: the
-- names in expressions and types of a resolved signature are those that the signature introduces.
use liquid_rust.Base.{ℕ, suc, ◌≤◌, ◌<◌, List, [], ◌∷◌, ◌≡◌}
use liquid_rust.Core.Ty.{Name, Var, Expr, Pred, Ty, BaseTy, Tys, Param, FnSig}
use liquid_rust.Driver.Diagnostics.Honest.{Each}

-- A free variable with a name below `n`; for `BelowOrBound` also the bound variable.
abbrev pub Below : ℕ → Var → Type 0
Below n Var.bound = ⊥
Below n (Var.free m) = m < n

abbrev pub BelowOrBound : ℕ → Var → Type 0
BelowOrBound n Var.bound = Unit
BelowOrBound n (Var.free m) = m < n

abbrev pub VarsIn : (Var → Type 0) → Expr → Type 0
VarsIn P (Expr.var v) = P v
VarsIn P (Expr.literal _) = Unit
VarsIn P (Expr.binary_op _ e1 e2) = VarsIn P e1 × VarsIn P e2

-- The parameters have the names below `n`, the locations those from `lo` to `hi`.
pub record Bounds : Type 0 where
  pub n : ℕ
  pub lo : ℕ
  pub hi : ℕ

-- The variables of a type are in scope, its locations are known, and no predicate is left to infer.
mutual
  pub data TyClosed (b : Bounds) : Ty → Type 0 where
    refine :
        {bty : BaseTy} {e : Expr}
        → BaseClosed b bty
        → VarsIn (Below b.n) e
        → TyClosed b (Ty.refine bty e)
    exists :
        {bty : BaseTy} {e : Expr}
        → BaseClosed b bty
        → VarsIn (BelowOrBound b.n) e
        → TyClosed b (Ty.exists bty (Pred.expr e))
    mut_ref : {m : Name} → b.lo ≤ m → m < b.hi → TyClosed b (Ty.mut_ref m)
    param : {p : _} → TyClosed b (Ty.param p)

  pub data BaseClosed (b : Bounds) : BaseTy → Type 0 where
    int : {i : _} → BaseClosed b (BaseTy.int i)
    uint : {i : _} → BaseClosed b (BaseTy.uint i)
    bool : BaseClosed b BaseTy.bool
    adt : {did : _} {tys : Tys} → TysClosed b tys → BaseClosed b (BaseTy.adt did tys)

  pub data TysClosed (b : Bounds) : Tys → Type 0 where
    nil : TysClosed b Tys.nil
    cons : {ty : Ty} {tys : Tys} → TyClosed b ty → TysClosed b tys → TysClosed b (Tys.cons ty tys)

-- A parameter at position `i` has the name `i`, and its predicate mentions it and those before it.
pub record ParamAt (i : ℕ) (p : Param) : Type 0 where
  pub name : p.name ≡ i
  pub pred : VarsIn (Below (suc i)) p.pred

-- A required type introduces the location `i`, which it may mention.
pub record RequireAt (n i : ℕ) (r : Name × Ty) : Type 0 where
  pub name : r.0 ≡ i
  pub ty : TyClosed (record { n = n; lo = n; hi = suc i }) r.1

-- An ensured type is that of a known location, or introduces the next one.
pub data Ensured (n : ℕ) : ℕ → List (Name × Ty) → ℕ → Type 0 where
  done : {hi : ℕ} → Ensured n hi [] hi
  known :
      {hi last m : ℕ} {ty : Ty} {es : List (Name × Ty)}
      → n ≤ m
      → m < hi
      → TyClosed (record { n = n; lo = n; hi = hi }) ty
      → Ensured n hi es last
      → Ensured n hi ((m, ty) ∷ es) last
  fresh :
      {hi last : ℕ} {ty : Ty} {es : List (Name × Ty)}
      → TyClosed (record { n = n; lo = n; hi = suc hi }) ty
      → Ensured n (suc hi) es last
      → Ensured n hi ((hi, ty) ∷ es) last

-- The names of a signature are 0, 1, 2, ... in the order in which it introduces them: parameters,
-- required locations, ensured locations. Each part mentions those before it only.
pub data SignatureClosed (sig : FnSig) : Type 0 where
  closed :
      {n required nargs last : ℕ}
      → Each ParamAt 0 sig.params n
      → Each (RequireAt n) n sig.requires required
      → Each (λ _. TyClosed (record { n = n; lo = n; hi = required })) 0 sig.args nargs
      → Ensured n required sig.ensures last
      → TyClosed (record { n = n; lo = n; hi = last }) sig.ret
      → SignatureClosed sig
