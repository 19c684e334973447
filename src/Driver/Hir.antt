-- ===== src/Driver/Hir.antt =====
-- The part of rustc's HIR that liquid-rust-driver/src/resolve.rs looks at: the constructors that its
-- matches name, with what it takes from them.
use liquid_rust.Base.{List}
use liquid_rust.Typeck.Ty.{DefId, IntTy, Symbol}

-- `hir::def::Res`: `other_def` is a definition of another kind, or `SelfTy`; `other` is any other kind.
pub data Res : Type 0 where
  ty_param : DefId → Res
  struct : DefId → Res
  int : IntTy → Res
  uint : IntTy → Res
  bool float str char : Res
  other_def : Res
  other : Res

-- A path of a type: `QPath::Resolved(None, path)` of one segment with its resolution, such a path of
-- several segments, or another `QPath`. A segment without arguments has none of them.
mutual
  pub data Ty : Type 0 where
    slice : Ty → Ty
    array : Ty → Ty
    ptr : Ty → Ty
    reference : Ty → Ty
    tup : Tys → Ty
    path : Symbol → Res → GenericArgs → Ty
    multi_segment_path : Ty
    other_path : Ty
    other : Ty

  pub data Tys : Type 0 where
    nil : Tys
    cons : Ty → Tys → Tys

  pub data GenericArg : Type 0 where
    type : Ty → GenericArg
    lifetime const infer : GenericArg

  pub data GenericArgs : Type 0 where
    no_args : GenericArgs
    arg : GenericArg → GenericArgs → GenericArgs

pub data FnRetTy : Type 0 where
  default_return : FnRetTy
  return_ty : Ty → FnRetTy

-- `FnSig`, its `decl`
pub record FnSig : Type 0 where
  pub inputs : List Ty
  pub output : FnRetTy

-- A parameter of `Generics` with its `DefId`, or of another kind than a type
pub data GenericParam : Type 0 where
  type : DefId → Symbol → GenericParam
  other : GenericParam

pub record Impl : Type 0 where
  pub generics : List GenericParam
  pub self_ty : Ty
