-- ===== src/Syntax.antt =====
-- The syntax tree of liquid-rust-syntax/src/ast.rs. An `Ident` is its symbol, and symbols are numbers.
-- Spans are only reported, and left out.
use liquid_rust.Base.{List, Option}
use liquid_rust.Core.Ty.{BinOp}
use liquid_rust.Typeck.Ty.{Symbol}

abbrev pub Ident : Type 0
Ident = Symbol

-- rustc's kinds of literals, as far as they are told apart
pub data LitKind : Type 0 where
  bool integer other : LitKind

pub record Lit : Type 0 where
  pub kind : LitKind
  pub symbol : Symbol

pub data Expr : Type 0 where
  var : Ident → Expr
  literal : Lit → Expr
  binary_op : BinOp → Expr → Expr → Expr

-- `plain` is a path whose `args` is `None`.
mutual
  pub data Ty : Type 0 where
    base_ty : TyPath → Ty
    refine_ty : TyPath → Expr → Ty
    exists : Ident → TyPath → Expr → Ty
    mut_ref : Ident → Ty

  pub data TyPath : Type 0 where
    plain : Ident → TyPath
    generic : Ident → Tys → TyPath

  pub data Tys : Type 0 where
    nil : Tys
    cons : Ty → Tys → Tys

pub record GenericParam : Type 0 where
  pub name : Ident
  pub sort : Ident
  pub pred : Option Expr

pub record FnSig : Type 0 where
  pub generics : List GenericParam
  pub requires : List (Ident × Ty)
  pub args : List Ty
  pub ret : Ty
  pub ensures : List (Ident × Ty)
