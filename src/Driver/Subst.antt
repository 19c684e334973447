-- ===== src/Driver/Subst.antt =====
-- `Subst` of liquid-rust-driver/src/resolve.rs: what the names of a surface signature stand for.
use liquid_rust.Base.{List, [], ℕ_discrete, Option, none, some, find, insert, if◌then◌else◌}
use liquid_rust.Core.Ty.{Name, Var}
use liquid_rust.Typeck.Ty.{DefId, ParamTy, Symbol}
use liquid_rust.Driver.ScopeMap.{ScopeMap}

pub record Subst (E T : Type 0) : Type 0 where
  pub exprs : E
  pub regions : List (Symbol × Name)
  pub types : T

module _ {E T : Type 0} (em : ScopeMap Symbol Var E) (tm : ScopeMap DefId ParamTy T) where
  -- `Subst::new`
  abbrev pub empty : Subst E T
  empty = record { exprs = em.new; regions = []; types = tm.new }

  abbrev pub push_expr_layer : Subst E T → Subst E T
  push_expr_layer s = record s { exprs = em.push_layer s.exprs }

  abbrev pub pop_expr_layer : Subst E T → Subst E T
  pop_expr_layer s = record s { exprs = em.pop_layer s.exprs }

  -- A name of the top layer keeps what it stands for.
  abbrev pub insert_expr : Symbol → Var → Subst E T → Option Var × Subst E T
  insert_expr symb name s =
      if em.contains_key_at_top s.exprs symb
      then (em.get s.exprs symb, s)
      else (none, record s { exprs = em.define s.exprs symb name })

  abbrev pub insert_region : Symbol → Name → Subst E T → Subst E T
  insert_region symb name s = record s { regions = insert ℕ_discrete s.regions symb name }

  -- The assertion fails (`none`) on a type of the top layer.
  abbrev pub insert_type : DefId → Symbol → Subst E T → Option (Subst E T)
  insert_type did name s =
      if tm.contains_key_at_top s.types did
      then none
      else some (record s {
        types = tm.define s.types did (record { index = tm.len s.types; name = name });
      })

  abbrev pub push_type_layer : Subst E T → Subst E T
  push_type_layer s = record s { types = tm.push_layer s.types }

  abbrev pub get_expr : Symbol → Subst E T → Option Var
  get_expr symb s = em.get s.exprs symb

  abbrev pub get_region : Symbol → Subst E T → Option Name
  get_region symb s = find ℕ_discrete s.regions symb

  abbrev pub get_param_ty : DefId → Subst E T → Option ParamTy
  get_param_ty did s = tm.get s.types did
