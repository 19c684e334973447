-- ===== src/Typeck/Checker/Obligations.antt =====
-- What the checker, liquid-rust-typeck/src/checker.rs, obliges a program to at a call and at a return.
use liquid_rust.Base.{
  ℕ, ◌≤◌, ◌≡◌, sym, ap, subst, List, [], ◌∷◌, All, ok, unwrap, >>=-eq-ok, arith, Option, none, some,
}
use liquid_rust.Core.Ty as Core
use liquid_rust.Core.Ir.{Operand}
use liquid_rust.Typeck.Ty.{Expr, Pred, Ty, Loc, DefId}
use liquid_rust.Typeck.Ty.Meaning.{Structure, Env, eval}
use liquid_rust.Typeck.Builder.{Cursor, push_head}
use liquid_rust.Typeck.Builder.Along.{Along}
use liquid_rust.Typeck.Builder.Translate.Closed.{HoldsNode}
use liquid_rust.Typeck.Builder.Subtyping.{Variance}
use liquid_rust.Typeck.Builder.Soundness.Relation.{TyClosed, Subtype}
use liquid_rust.Typeck.Builder.Soundness.{subtyping-Proves}
use liquid_rust.Typeck.Builder.Soundness.Steps.{
  ProvesBy, ProvesBy-ok, Proves-trans, ProvesBy-bind, push_head-ProvesBy,
}
use liquid_rust.Typeck.Builder.Keeps.{Keeps-trans}
use liquid_rust.Typeck.Lowering.{Subst, lower_expr, with_type_substs, infer_from_fn_call}
use liquid_rust.Typeck.TypeEnv.{TypeEnv, lookup_local, lookup_loc, cursor_subtyping}
use liquid_rust.Typeck.Checker.Calls.{
  check_operands, push_params, check_args, check_requires, call_effects,
}
use liquid_rust.Typeck.Checker.Keeps.{check_args-Keeps, check_requires-Keeps, apply_ensures-Keeps}
use liquid_rust.Typeck.Checker.Flow.{Context, Goal, State, check_ensures, check_return}

-- The predicates of the parameters, lowered, hold.
abbrev pub ParamsHold : (M : Structure) → M.Value → Subst → List Core.Param → Env M → Type 0
ParamsHold M ν subst params ρ =
    All (λ param. (e : Expr) × (lower_expr subst param.pred ≡ ok e) × M.IsTrue (eval M ν ρ e))
      params

push_params-ProvesBy :
    (M : Structure) (ν : M.Value) (subst : Subst) (c : Cursor) (params : List Core.Param)
    → ProvesBy M ν c (ParamsHold M ν subst params) (push_params subst c params)
unfolding push_params
push_params-ProvesBy M ν s c [] = ProvesBy-ok M ν c _ (λ ρ. tt)
push_params-ProvesBy M ν s c (param ∷ params) = λ c' h.
    let (e, h1, h2) = >>=-eq-ok (lower_expr s param.pred) _ h in
    ProvesBy-bind M ν c (push_head c (Pred.expr e)) (λ c₁. push_params s c₁ params)
      (λ ρ holds rest. ((e, h1, holds), rest)) (push_head-ProvesBy M ν c (Pred.expr e))
      (λ c₁ _. push_params-ProvesBy M ν s c₁ params) c' h2

-- What the effects of a call oblige to: under the substitution that is inferred from the actual
-- arguments, a tree of `c'` that holds makes the predicates of the callee's parameters true at the place
-- of the cursor.
pub record ParamsChecked (env : TypeEnv) (c : Cursor) (sig : Core.FnSig) (substs : List Core.Ty)
    (args : List Operand) (c' : Cursor) : Type 1 where
  pub actuals : List Ty
  pub env1 : TypeEnv
  pub type_substs : Subst
  pub c1 : Cursor
  pub subst : Subst
  pub operands : check_operands env args ≡ ok (actuals, env1)
  pub type_args : with_type_substs c substs ≡ ok (type_substs, c1)
  pub inferred : infer_from_fn_call type_substs (lookup_loc env1) actuals sig ≡ ok subst
  pub hold :
      (M : Structure) (ν : M.Value) (ρ : Env M)
      → HoldsNode M ν ρ c'.root
      → Along M ν c1.root c1.node ρ (ParamsHold M ν subst sig.params)

-- Where the effects of a call give a cursor, the actual arguments have types, a substitution for the
-- callee's parameters is inferred from them, starting from the type arguments, and every parameter's
-- predicate is an obligation: under that substitution it is lowered, and a tree that holds after the
-- call makes it true, under the binders and guards above the cursor that stood when the type arguments
-- were lowered.
pub call_effects-ParamsChecked :
    (variances_of : DefId → List Variance) (env : TypeEnv) (c : Cursor) (sig : Core.FnSig)
    (substs : List Core.Ty) (args : List Operand) (env' : TypeEnv) (subst' : Subst) (c' : Cursor)
    → call_effects variances_of env c sig substs args ≡ ok (env', (subst', c'))
    → ParamsChecked env c sig substs args c'
unfolding call_effects
call_effects-ParamsChecked variances_of env c sig substs args env' subst' c' h =
    let ((actuals, env₁), operands, h) = >>=-eq-ok (check_operands env args) _ h in
    let ((type_substs, c₁), type_args, h) = >>=-eq-ok (with_type_substs c substs) _ h in
    let (s, inferred, h) =
      >>=-eq-ok (infer_from_fn_call type_substs (lookup_loc env₁) actuals sig) _ h in
    let (c₂, pushed, h) = >>=-eq-ok (push_params s c₁ sig.params) _ h in
    let (c₃, e3, h) = >>=-eq-ok (check_args variances_of s c₂ actuals sig.args) _ h in
    let (c₄, e4, h) = >>=-eq-ok (check_requires variances_of env₁ s c₃ sig.requires) _ h in
    let k3 = check_args-Keeps variances_of s c₂ actuals sig.args c₃ e3 in
    let k4 = check_requires-Keeps variances_of env₁ s c₃ sig.requires c₄ e4 in
    let k5 = apply_ensures-Keeps variances_of env₁ s c₄ sig.ensures (env', (subst', c')) h in
    let keeps = Keeps-trans k3 (Keeps-trans k4 k5) in
    record {
      actuals = actuals;
      env1 = env₁;
      type_substs = type_substs;
      c1 = c₁;
      subst = s;
      operands = operands;
      type_args = type_args;
      inferred = inferred;
      hold = λ M ν ρ holds.
          (push_params-ProvesBy M ν s c₁ sig.params c₂ pushed).proves ρ (keeps.implies M ν ρ holds);
    }

-- The names of every binding's type are below `g`.
abbrev pub EnvClosed : ℕ → TypeEnv → Type 0
EnvClosed g env = (loc : Loc) (ty : Ty) → lookup_loc env loc ≡ some ty → TyClosed g ty

-- The types of the ensured locations are subtypes of what is ensured.
abbrev pub EnsuresHold :
    (DefId → List Variance) → (M : Structure) → M.Value → TypeEnv → List (Loc × Ty) → Env M → Type 0
EnsuresHold variances_of M ν env ensures ρ =
    All
      (λ (loc, ensured).
        (actual : Ty) × (lookup_loc env loc ≡ some actual)
        × Subtype variances_of M ν ρ actual ensured)
      ensures

unwrap-ok : {A : Type 0} (o : Option A) (a : A) → unwrap o ≡ ok a → o ≡ some a
unwrap-ok none a h = cc
unwrap-ok (some b) a h = let r : b ≡ a = cc in ap some r

module _ (cx : Context) (goal : Goal) (M : Structure) (ν : M.Value) (g : ℕ) (env : TypeEnv)
    (closed : EnvClosed g env) where
  check_ensures-ProvesBy :
      (c : Cursor) (ensures : List (Loc × Ty))
      → g ≤ c.name_gen
      → All (λ (_, ensured). TyClosed g ensured) ensures
      → ProvesBy M ν c
          (EnsuresHold cx.variances_of M ν env ensures)
          (check_ensures cx goal env c ensures)
  unfolding check_ensures
  check_ensures-ProvesBy c [] le hs = ProvesBy-ok M ν c _ (λ ρ. tt)
  check_ensures-ProvesBy c ((loc, ensured) ∷ ensures) le (h, hs) = λ c' eq.
      let (actual, e1, e2) = >>=-eq-ok (unwrap (lookup_loc env loc)) _ eq in
      let found = unwrap-ok (lookup_loc env loc) actual e1 in
      ProvesBy-bind M ν c _ (λ c₁. check_ensures cx goal env c₁ ensures)
        (λ ρ s rest. ((actual, found, s), rest))
        (subtyping-Proves cx.variances_of M ν _ g c actual ensured le (closed loc actual found) h)
        (λ c₁ k. let f = k.fresh in check_ensures-ProvesBy c₁ ensures (omega arith) hs) c' e2

-- At a return, the type of the place of the result is a subtype of the signature's result type, and the
-- type of each ensured location is a subtype of what is ensured there: where the check gives a cursor,
-- and every name in the environment and the signature was generated before it, a tree that holds
-- afterwards makes these hold by meaning at the place of the cursor.
pub check_return-Subtype :
    (cx : Context) (goal : Goal) (st : State) (env : TypeEnv) (c : Cursor) (st' : State)
    (c' : Cursor)
    → EnvClosed c.name_gen env
    → TyClosed c.name_gen goal.ret_ty
    → All (λ (_, ensured). TyClosed c.name_gen ensured) goal.ensures
    → check_return cx goal st env c ≡ ok (st', c')
    → (M : Structure) (ν : M.Value) (ρ : Env M) → HoldsNode M ν ρ c'.root
    → Along M ν c.root c.node ρ (λ ρ'.
      ((ty : Ty) × (lookup_loc env (Loc.local 0) ≡ some ty)
        × Subtype cx.variances_of M ν ρ' ty goal.ret_ty)
      × EnsuresHold cx.variances_of M ν env goal.ensures ρ')
unfolding check_return
check_return-Subtype cx goal st env c st' c' closed ret ensured h M ν ρ holds =
    let (ty, h1, h2) = >>=-eq-ok (lookup_local env 0) _ h in
    let found = unwrap-ok (lookup_loc env (Loc.local 0)) ty h1 in
    let (c₁, h3, h4) = >>=-eq-ok (cursor_subtyping cx.variances_of c ty goal.ret_ty) _ h2 in
    let (c₂, h5, h6) = >>=-eq-ok (check_ensures cx goal env c₁ goal.ensures) _ h4 in
    let same : c₂ ≡ c' = cc in
    let p =
      subtyping-Proves cx.variances_of M ν _ c.name_gen c ty goal.ret_ty (omega arith)
        (closed (Loc.local 0) ty found) ret c₁ h3 in
    let f = p.keeps.fresh in
    let q =
      check_ensures-ProvesBy cx goal M ν c.name_gen env closed c₁ goal.ensures (omega arith) ensured
        c₂ h5 in
    (Proves-trans M ν (λ ρ' s rest. ((ty, found, s), rest)) p q).proves ρ
      (subst (λ d. HoldsNode M ν ρ d.root) (sym same) holds)
