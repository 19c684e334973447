-- ===== src/Typeck/Checker/Run.antt =====
-- A whole function: `Checker::infer`, `Checker::check` and their common part, of
-- liquid-rust-typeck/src/checker.rs, and `check` of liquid-rust-typeck/src/lib.rs. The run of the solver
-- is a function of its input.
use liquid_rust.Base.{
  ℕ, List, [], ◌∷◌, map, true, false, Outcome, ok, reported, panicked, ◌>>=◌, unwrap, find,
  ℕ_discrete,
}
use liquid_rust.Core.Ir.{BasicBlock, args_iter, vars_and_temps_iter}
use liquid_rust.Core.Ty as Core
use liquid_rust.Fixpoint.Constraint.{Name, Fixpoint}
use liquid_rust.Typeck.Ty.{Loc, Local, Expr, Var, Pred, Ty, DefId}
use liquid_rust.Typeck.Builder as Builder
use liquid_rust.Typeck.Builder.{Builder, Cursor, new_builder, as_cursor, push_forall, fresh_name}
use liquid_rust.Typeck.Builder.Translate.{builder_into_fixpoint}
use liquid_rust.Typeck.Lowering as Lowering
use liquid_rust.Typeck.Lowering.{
  Subst, with_empty_type_substs, insert_expr, lower_loc, lower_expr, lower_ty,
}
use liquid_rust.Typeck.TypeEnv as TypeEnv
use liquid_rust.Typeck.TypeEnv.{TypeEnv, TypeEnvShape, insert_loc, into_shape}
use liquid_rust.Typeck.Checker.Flow.{
  Context, State, Goal, Mode, Done, check_goto, check_basic_block, contains, join_points,
  lookup_fn_sig, start_block,
}

-- Each parameter gets a fresh name, bound with its predicate.
unfoldable pub bind_params : Subst → Cursor → List Core.Param → Outcome (Subst × Cursor)
bind_params subst c [] = ok (subst, c)
bind_params subst c (param ∷ params) = do
  let (name, c₁) = fresh_name c
  let subst₁ = insert_expr subst param.name (Expr.var (Var.free name))
  e ← lower_expr subst₁ param.pred
  c₂ ← push_forall c₁ name param.sort (Pred.expr e)
  bind_params subst₁ c₂ params

-- Each required location gets a fresh one.
unfoldable pub bind_requires :
    Subst → TypeEnv → Cursor → List (Name × Core.Ty) → Outcome (Subst × (TypeEnv × Cursor))
bind_requires subst env c [] = ok (subst, (env, c))
bind_requires subst env c ((x, required) ∷ requires) = do
  (lowered, c₁) ← lower_ty subst c required
  let (name, c₂) = fresh_name c₁
  (ty, c₃) ← Builder.unpack c₂ lowered
  let loc = Loc.abstract name
  bind_requires (Lowering.insert_loc subst x loc) (insert_loc env loc ty) c₃ requires

unfoldable pub bind_args :
    Subst → TypeEnv → Cursor → List Local → List Core.Ty → Outcome (TypeEnv × Cursor)
bind_args subst env c (local ∷ locals) (arg ∷ args) = do
  (lowered, c₁) ← lower_ty subst c arg
  (ty, c₂) ← Builder.unpack c₁ lowered
  bind_args subst (insert_loc env (Loc.local local) ty) c₂ locals args
bind_args subst env c _ _ = ok (env, c)

unfoldable pub bind_uninit : TypeEnv → List Local → TypeEnv
bind_uninit env [] = env
bind_uninit env (local ∷ locals) = bind_uninit (insert_loc env (Loc.local local) Ty.uninit) locals

unfoldable pub lower_ensures :
    Subst → Cursor → List (Name × Core.Ty) → Outcome (List (Loc × Ty) × Cursor)
lower_ensures subst c [] = ok ([], c)
lower_ensures subst c ((x, ensured) ∷ ensures) = do
  (ty, c₁) ← lower_ty subst c ensured
  loc ← unwrap (lower_loc subst x)
  (rest, c₂) ← lower_ensures subst c₁ ensures
  ok ((loc, ty) ∷ rest, c₂)

-- What the solver says, or that it failed to run.
pub data Answer : Type 0 where
  safe unsafe crash failed : Answer

-- The match on the solver's answer: an unsafe function is reported.
abbrev pub judge : Answer → Outcome (Unit {0})
judge Answer.safe = ok tt
judge Answer.unsafe = reported
judge Answer.crash = panicked
judge Answer.failed = panicked

module _ (cx : Context) where
  -- The loop of `run` over the blocks in reverse postorder
  unfoldable pub run_blocks : Goal → ℕ → State → Cursor → List BasicBlock → Done
  run_blocks goal fuel st c [] = ok (st, c)
  run_blocks goal fuel st c (bb ∷ bbs) = elim (contains st.visited bb) [
    | true ↦ run_blocks goal fuel st c bbs
    | false ↦ unwrap (find ℕ_discrete st.bb_envs bb) >>= λ bb_env.
        TypeEnv.unpack bb_env c >>= λ (env, c₁).
        check_basic_block cx goal (check_goto cx goal fuel) st env c₁ bb >>= λ (st₁, c₂).
        run_blocks goal fuel st₁ c₂ bbs
  ]

  unfoldable pub run : Goal → ℕ → State → TypeEnv → Cursor → Done
  run goal fuel st env c = do
    (st₁, c₁) ← check_goto cx goal fuel st env c start_block
    run_blocks goal fuel st₁ c₁ cx.reverse_postorder

  -- `Checker::new`
  unfoldable pub new_goal : Ty → List (Loc × Ty) → Goal
  new_goal ret_ty ensures = record {
    ret_ty = ret_ty;
    ensures = ensures;
    dominates_join_point = map cx.immediate_dominator (join_points cx);
  }

  abbrev pub new_state : Mode → State
  new_state mode = record { visited = []; bb_envs = []; mode = mode }

  unfoldable pub check_or_infer : ℕ → Core.FnSig → Mode → Outcome (State × Builder)
  check_or_infer fuel sig mode = do
    let c = as_cursor new_builder
    (subst₁, c₁) ← bind_params with_empty_type_substs c sig.params
    (subst₂, (env₂, c₂)) ← bind_requires subst₁ [] c₁ sig.requires
    (env₃, c₃) ← bind_args subst₂ env₂ c₂ (args_iter cx.body) sig.args
    let env₄ = insert_loc (bind_uninit env₃ (vars_and_temps_iter cx.body)) (Loc.local 0) Ty.uninit
    (ensures, c₄) ← lower_ensures subst₂ c₃ sig.ensures
    (ret_ty, c₅) ← lower_ty subst₂ c₄ sig.ret
    (st₁, c₆) ← run (new_goal ret_ty ensures) fuel (new_state mode) env₄ c₅
    ok (st₁, c₆.builder)

  -- `Checker::infer`
  unfoldable pub infer : ℕ → Core.FnSig → Outcome (List (BasicBlock × TypeEnvShape))
  infer fuel sig = do
    (st, _) ← check_or_infer fuel sig Mode.inference
    ok (map (λ (bb, env). (bb, into_shape env)) st.bb_envs)

  -- `Checker::check`
  unfoldable pub check_shapes : ℕ → Core.FnSig → List (BasicBlock × TypeEnvShape) → Outcome Builder
  check_shapes fuel sig shapes = do
    (_, builder) ← check_or_infer fuel sig (Mode.check shapes)
    ok builder

  -- `check` of the crate, without the dump of the constraint to a file
  unfoldable pub check : ℕ → (Fixpoint → Answer) → DefId → Outcome (Unit {0})
  check fuel solve def_id = do
    sig ← lookup_fn_sig cx def_id
    bb_envs ← infer fuel sig
    builder ← check_shapes fuel sig bb_envs
    query ← builder_into_fixpoint builder
    judge (solve query)
