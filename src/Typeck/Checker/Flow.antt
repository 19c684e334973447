-- ===== src/Typeck/Checker/Flow.antt =====
-- The terminators and blocks of liquid-rust-typeck/src/checker.rs, with `GlobalEnv` of
-- liquid-rust-typeck/src/global_env.rs. The predecessors, the dominators and the order of blocks are
-- rustc's, and so is `DefId::as_local`. A set of blocks is a list.
use liquid_rust.Base.{
  ℕ, zero, suc, ◌==◌, Bool, true, false, ◌||◌, List, [], ◌∷◌, length, ltb, get_elem?, Option, none,
  some, Outcome, ok, panicked, ◌>>=◌, unwrap, find, insert, ℕ_discrete, if◌then◌else◌,
}
use liquid_rust.Core.Ir.{BasicBlock, Body, Operand, Place, SwitchTargets, Terminator}
use liquid_rust.Core.Ty as Core
use liquid_rust.Fixpoint.Constraint.{BinOp}
use liquid_rust.Typeck.Ty.{Loc, Expr, Ty, BaseTy, DefId, from_bits, not_expr}
use liquid_rust.Typeck.Builder as Builder
use liquid_rust.Typeck.Builder.{Cursor, resume, push_scope, push_guard}
use liquid_rust.Typeck.Builder.Subtyping.{Variance}
use liquid_rust.Typeck.Lowering.{Subst, lower_ty}
use liquid_rust.Typeck.TypeEnv.{
  TypeEnv, TypeEnvShape, lookup_loc, lookup_local, move_place, write_place, cursor_subtyping,
}
use liquid_rust.Typeck.TypeEnv.Merge.{join_with, infer_bb_env, transform_into}
use liquid_rust.Typeck.Checker.{check_operand, check_statements}
use liquid_rust.Typeck.Checker.Calls.{call_effects}

pub record FnSpec : Type 0 where
  pub fn_sig : Core.FnSig
  pub assume : Bool

-- What is asked of rustc about the functions and the body, and the bound on the joins of two types
pub record Context : Type 0 where
  pub variances_of : DefId → List Variance
  pub as_local : DefId → Option ℕ
  pub specs : List (ℕ × FnSpec)
  pub body : Body
  pub predecessors : BasicBlock → List BasicBlock
  pub immediate_dominator : BasicBlock → BasicBlock
  pub reverse_postorder : List BasicBlock
  pub join_fuel : ℕ

-- `GlobalEnv::lookup_fn_sig`
unfoldable pub lookup_fn_sig : Context → DefId → Outcome Core.FnSig
lookup_fn_sig cx did = do
  local ← unwrap (cx.as_local did)
  spec ← unwrap (find ℕ_discrete cx.specs local)
  ok spec.fn_sig

-- `START_BLOCK`
abbrev pub start_block : BasicBlock
start_block = 0

-- `Body::is_join_point`
unfoldable pub is_join_point : Context → BasicBlock → Bool
is_join_point cx bb = ltb (if bb == start_block then 0 else 1) (length (cx.predecessors bb))

abbrev pub contains : List BasicBlock → BasicBlock → Bool
contains [] bb = false
contains (x ∷ xs) bb = (x == bb) || contains xs bb

-- The blocks from `first` on, `count` of them
abbrev pub indices : ℕ → ℕ → List BasicBlock
indices first zero = []
indices first (suc count) = first ∷ indices (suc first) count

-- The join points among some blocks, `Body::join_points` for all of them
unfoldable pub join_points_of : Context → List BasicBlock → List BasicBlock
join_points_of cx [] = []
join_points_of cx (bb ∷ bbs) =
    let rest = join_points_of cx bbs in if is_join_point cx bb then bb ∷ rest else rest

unfoldable pub join_points : Context → List BasicBlock
join_points cx = join_points_of cx (indices 0 (length cx.body.basic_blocks))

pub data Mode : Type 0 where
  inference : Mode
  check : List (BasicBlock × TypeEnvShape) → Mode

-- The fields of `Checker` that change
pub record State : Type 0 where
  pub visited : List BasicBlock
  pub bb_envs : List (BasicBlock × TypeEnv)
  pub mode : Mode

-- The fields that do not
pub record Goal : Type 0 where
  pub ret_ty : Ty
  pub ensures : List (Loc × Ty)
  pub dominates_join_point : List BasicBlock

-- A state of the checker and the cursor; no caller reads the environment after a jump.
abbrev pub Done : Type 0
Done = Outcome (State × Cursor)

-- `shapes.remove`
unfoldable pub remove :
    List (BasicBlock × TypeEnvShape) → BasicBlock → List (BasicBlock × TypeEnvShape)
remove [] bb = []
remove ((x, shape) ∷ shapes) bb =
    let rest = remove shapes bb in if x == bb then rest else (x, shape) ∷ rest

module _ (cx : Context) where
  -- The environment of a join point that is inferred: joined with the one that is there.
  unfoldable pub infer_at : State → TypeEnv → Cursor → BasicBlock → Option TypeEnv → Done
  infer_at st env c target (some bb_env) = do
    (bb_env₁, c₁) ← join_with cx.variances_of cx.join_fuel bb_env c env
    ok (record st { bb_envs = insert ℕ_discrete st.bb_envs target bb_env₁ }, c₁)
  infer_at st env c target none =
      ok (record st { bb_envs = insert ℕ_discrete st.bb_envs target env }, c)

  -- The environment of a join point that is checked: built from the shape at the first jump.
  unfoldable pub bb_env_at :
      State
      → List (BasicBlock × TypeEnvShape)
      → TypeEnv
      → Cursor
      → BasicBlock
      → Option TypeEnv
      → Outcome (TypeEnv × (State × Cursor))
  bb_env_at st shapes env c target (some bb_env) = ok (bb_env, (st, c))
  bb_env_at st shapes env c target none = do
    shape ← unwrap (find ℕ_discrete shapes target)
    (bb_env, c₁) ← infer_bb_env env c shape
    let bb_envs = insert ℕ_discrete st.bb_envs target bb_env
    ok (bb_env, (record st { bb_envs = bb_envs; mode = Mode.check (remove shapes target) }, c₁))

  unfoldable pub check_goto_join_point : Mode → State → TypeEnv → Cursor → BasicBlock → Done
  check_goto_join_point Mode.inference st env c target =
      infer_at st env c target (find ℕ_discrete st.bb_envs target)
  check_goto_join_point (Mode.check shapes) st env c target = do
    (bb_env, (st₁, c₁)) ← bb_env_at st shapes env c target (find ℕ_discrete st.bb_envs target)
    (_, c₂) ← transform_into cx.variances_of env c₁ bb_env
    ok (st₁, c₂)

  -- The guard for one value of a `switchInt`, the closure `mk`
  unfoldable pub switch_guard : Ty → ℕ → Outcome Expr
  switch_guard (Ty.refine BaseTy.bool e) bits = ok (if bits == 0 then not_expr e else e)
  switch_guard (Ty.refine (BaseTy.int i) e) bits = do
    value ← from_bits (BaseTy.int i) bits
    ok (Expr.binary_op BinOp.eq e value)
  switch_guard (Ty.refine (BaseTy.uint i) e) bits = do
    value ← from_bits (BaseTy.uint i) bits
    ok (Expr.binary_op BinOp.eq e value)
  switch_guard _ bits = panicked

  -- The conjunction of the negated guards, from left to right, after a first one
  unfoldable pub otherwise_guard : Ty → Expr → List (ℕ × BasicBlock) → Outcome Expr
  otherwise_guard discr_ty e [] = ok e
  otherwise_guard discr_ty e ((bits, _) ∷ targets) = do
    e' ← switch_guard discr_ty bits
    otherwise_guard discr_ty (Expr.binary_op BinOp.and e (not_expr e')) targets

  unfoldable pub push_otherwise : Cursor → Ty → List (ℕ × BasicBlock) → Outcome Cursor
  push_otherwise c discr_ty [] = ok c
  push_otherwise c discr_ty ((bits, _) ∷ targets) = do
    e ← switch_guard discr_ty bits
    otherwise ← otherwise_guard discr_ty (not_expr e) targets
    push_guard c otherwise

  module _ (goal : Goal) where
    -- The ensured locations of the signature at a return
    unfoldable pub check_ensures : TypeEnv → Cursor → List (Loc × Ty) → Outcome Cursor
    check_ensures env c [] = ok c
    check_ensures env c ((loc, ensured_ty) ∷ ensures) = do
      actual_ty ← unwrap (lookup_loc env loc)
      c₁ ← cursor_subtyping cx.variances_of c actual_ty ensured_ty
      check_ensures env c₁ ensures

    unfoldable pub check_return : State → TypeEnv → Cursor → Done
    check_return st env c = do
      ret_place_ty ← lookup_local env 0
      c₁ ← cursor_subtyping cx.variances_of c ret_place_ty goal.ret_ty
      c₂ ← check_ensures env c₁ goal.ensures
      ok (st, c₂)

    -- With the recursive call, `check_goto`
    module _ (goto : State → TypeEnv → Cursor → BasicBlock → Done) where
      -- Each target is checked under its guard, in a snapshot, with its own environment.
      unfoldable pub check_targets : State → TypeEnv → Cursor → Ty → List (ℕ × BasicBlock) → Done
      check_targets st env c discr_ty [] = ok (st, c)
      check_targets st env c discr_ty ((bits, bb) ∷ targets) = do
        e ← switch_guard discr_ty bits
        c₁ ← push_guard c e
        (st₁, c₂) ← goto st env c₁ bb
        check_targets st₁ env (resume c c₂) discr_ty targets

      unfoldable pub check_switch_int : State → TypeEnv → Cursor → Operand → SwitchTargets → Done
      check_switch_int st env c discr targets = do
        (discr_ty, env₁) ← check_operand env discr
        (st₁, c₁) ← check_targets st env₁ c discr_ty targets.targets
        c₂ ← push_otherwise c₁ discr_ty targets.targets
        (st₂, c₃) ← goto st₁ env₁ c₂ targets.otherwise
        ok (st₂, resume c₁ c₃)

      -- The end of `check_call`
      unfoldable pub check_destination :
          State → TypeEnv → Cursor → Subst → Core.Ty → Option (Place × BasicBlock) → Done
      check_destination st env c subst ret none = ok (st, c)
      check_destination st env c subst ret (some (place, bb)) = do
        (lowered, c₁) ← lower_ty subst c ret
        (ty, c₂) ← Builder.unpack c₁ lowered
        (env₁, c₃) ← write_place cx.variances_of env c₂ place ty
        goto st env₁ c₃ bb

      unfoldable pub check_terminator : State → TypeEnv → Cursor → Terminator → Done
      check_terminator st env c Terminator.return = check_return st env c
      check_terminator st env c (Terminator.goto target) = goto st env c target
      check_terminator st env c (Terminator.switch_int discr targets) =
          check_switch_int st env c discr targets
      check_terminator st env c (Terminator.call func substs args destination) = do
        sig ← lookup_fn_sig cx func
        (env₁, (subst, c₁)) ← call_effects cx.variances_of env c sig substs args
        check_destination st env₁ c₁ subst sig.ret destination
      check_terminator st env c (Terminator.drop place target) = do
        (_, env₁) ← move_place env place
        goto st env₁ c target

      abbrev pub check_optional_terminator : State → TypeEnv → Cursor → Option Terminator → Done
      check_optional_terminator st env c none = ok (st, c)
      check_optional_terminator st env c (some terminator) = check_terminator st env c terminator

      unfoldable pub check_basic_block : State → TypeEnv → Cursor → BasicBlock → Done
      check_basic_block st env c bb = do
        let st₁ = record st { visited = bb ∷ st.visited }
        let c₁ = if contains goal.dominates_join_point bb then push_scope c else c
        block ← unwrap (get_elem? cx.body.basic_blocks bb)
        (env₁, c₂) ← check_statements cx.variances_of env c₁ block.statements
        check_optional_terminator st₁ env₁ c₂ block.terminator

    -- The jumps to blocks that are not join points; `fuel` bounds how many follow each other.
    unfoldable pub check_goto : ℕ → State → TypeEnv → Cursor → BasicBlock → Done
    check_goto zero st env c target = panicked
    check_goto (suc fuel) st env c target = elim (is_join_point cx target) [
      | true ↦ check_goto_join_point st.mode st env c target
      | false ↦ check_basic_block (check_goto fuel) st env c target
    ]
