-- ===== src/Typeck/Checker/FlowKeeps.antt =====
-- The blocks and jumps of liquid-rust-typeck/src/checker.rs lose no obligation.
use liquid_rust.Base.{
  ℕ, zero, suc, List, [], ◌∷◌, true, false, unwrap, Option, none, some, find, get_elem?, ℕ_discrete,
  Bool-cases, inl, inr, if◌then◌else◌,
}
use liquid_rust.Core.Ir.{BasicBlock, Operand, Place, SwitchTargets, Terminator}
use liquid_rust.Core.Ty as Core
use liquid_rust.Typeck.Ty.{Loc, Ty}
use liquid_rust.Typeck.Builder.{Cursor, resume, push_scope}
use liquid_rust.Typeck.Builder.Keeps.{Keeps, Keeps-refl, Keeps-trans}
use liquid_rust.Typeck.Builder.Monotone.{
  KeepsVia, KeepsVia-ok, KeepsVia-panic, KeepsVia-pure, KeepsVia-bind, itself, second, third,
  unpack-KeepsVia, push_guard-Keeps, push_scope-Keeps, resume-Keeps,
}
use liquid_rust.Typeck.Lowering.{Subst}
use liquid_rust.Typeck.Lowering.Keeps.{lower_ty-Keeps}
use liquid_rust.Typeck.TypeEnv.{TypeEnv, TypeEnvShape, lookup_loc, lookup_local, move_place}
use liquid_rust.Typeck.TypeEnv.Keeps.{infer_bb_env-Keeps, cursor_subtyping-Keeps, write_place-Keeps}
use liquid_rust.Typeck.TypeEnv.MergeKeeps.{transform_into-Keeps, join_with-Keeps}
use liquid_rust.Typeck.Checker.{check_operand}
use liquid_rust.Typeck.Checker.Keeps.{check_statements-Keeps, call_effects-Keeps}
use liquid_rust.Typeck.Checker.Flow.{
  Context, State, Goal, Mode, Done, lookup_fn_sig, is_join_point, contains, infer_at, bb_env_at,
  check_goto_join_point, switch_guard, otherwise_guard, push_otherwise, check_ensures, check_return,
  check_targets, check_switch_int, check_destination, check_terminator, check_optional_terminator,
  check_basic_block, check_goto,
}

module _ (cx : Context) where
  infer_at-Keeps :
      (st : State) (env : TypeEnv) (c : Cursor) (target : BasicBlock) (o : Option TypeEnv)
      → KeepsVia second c (infer_at cx st env c target o)
  unfolding infer_at
  infer_at-Keeps st env c target (some bb_env) =
      KeepsVia-bind second second c _ _ (join_with-Keeps cx.variances_of cx.join_fuel bb_env c env)
        λ (bb_env₁, c₁). KeepsVia-ok second c₁ _ (Keeps-refl c₁)
  infer_at-Keeps st env c target none = KeepsVia-ok second c _ (Keeps-refl c)

  bb_env_at-Keeps :
      (st : State) (shapes : List (BasicBlock × TypeEnvShape)) (env : TypeEnv) (c : Cursor)
      (target : BasicBlock) (o : Option TypeEnv)
      → KeepsVia third c (bb_env_at cx st shapes env c target o)
  unfolding bb_env_at
  bb_env_at-Keeps st shapes env c target (some bb_env) = KeepsVia-ok third c _ (Keeps-refl c)
  bb_env_at-Keeps st shapes env c target none =
      KeepsVia-pure third c (unwrap (find ℕ_discrete shapes target)) _ λ shape.
        KeepsVia-bind third second c _ _ (infer_bb_env-Keeps env c shape)
          λ (bb_env, c₁). KeepsVia-ok third c₁ _ (Keeps-refl c₁)

  check_goto_join_point-Keeps :
      (mode : Mode) (st : State) (env : TypeEnv) (c : Cursor) (target : BasicBlock)
      → KeepsVia second c (check_goto_join_point cx mode st env c target)
  unfolding check_goto_join_point
  check_goto_join_point-Keeps Mode.inference st env c target = infer_at-Keeps st env c target _
  check_goto_join_point-Keeps (Mode.check shapes) st env c target =
      KeepsVia-bind second third c _ _ (bb_env_at-Keeps st shapes env c target _)
        λ (bb_env, (st₁, c₁)).
          KeepsVia-bind second second c₁ _ _ (transform_into-Keeps cx.variances_of env c₁ bb_env)
            λ (env₂, c₂). KeepsVia-ok second c₂ _ (Keeps-refl c₂)

  push_otherwise-Keeps :
      (c : Cursor) (ty : Ty) (targets : List (ℕ × BasicBlock))
      → KeepsVia itself c (push_otherwise cx c ty targets)
  unfolding push_otherwise
  push_otherwise-Keeps c ty [] = KeepsVia-ok itself c c (Keeps-refl c)
  push_otherwise-Keeps c ty ((bits, _) ∷ targets) =
      KeepsVia-pure itself c (switch_guard cx ty bits) _ λ e.
        KeepsVia-pure itself c (otherwise_guard cx ty _ targets) _
          λ otherwise. push_guard-Keeps c otherwise

  module _ (goal : Goal) where
    check_ensures-Keeps :
        (env : TypeEnv) (c : Cursor) (ensures : List (Loc × Ty))
        → KeepsVia itself c (check_ensures cx goal env c ensures)
    unfolding check_ensures
    check_ensures-Keeps env c [] = KeepsVia-ok itself c c (Keeps-refl c)
    check_ensures-Keeps env c ((loc, ty) ∷ ensures) =
        KeepsVia-pure itself c (unwrap (lookup_loc env loc)) _ λ actual.
          KeepsVia-bind itself itself c _ _ (cursor_subtyping-Keeps cx.variances_of c actual ty)
            λ c₁. check_ensures-Keeps env c₁ ensures

    check_return-Keeps :
        (st : State) (env : TypeEnv) (c : Cursor)
        → KeepsVia second c (check_return cx goal st env c)
    unfolding check_return
    check_return-Keeps st env c = KeepsVia-pure second c (lookup_local env 0) _ λ ty.
        KeepsVia-bind second itself c _ _ (cursor_subtyping-Keeps cx.variances_of c ty goal.ret_ty)
          λ c₁.
            KeepsVia-bind second itself c₁ _ _ (check_ensures-Keeps env c₁ goal.ensures)
              λ c₂. KeepsVia-ok second c₂ _ (Keeps-refl c₂)

    module _ (goto : State → TypeEnv → Cursor → BasicBlock → Done)
        (keeps : (st : State) (env : TypeEnv) (c : Cursor) (bb : BasicBlock)
          → KeepsVia second c (goto st env c bb)) where
      check_targets-Keeps :
          (st : State) (env : TypeEnv) (c : Cursor) (ty : Ty) (targets : List (ℕ × BasicBlock))
          → KeepsVia second c (check_targets cx goal goto st env c ty targets)
      unfolding check_targets
      check_targets-Keeps st env c ty [] = KeepsVia-ok second c _ (Keeps-refl c)
      check_targets-Keeps st env c ty ((bits, bb) ∷ targets) =
          KeepsVia-pure second c (switch_guard cx ty bits) _ λ e.
            KeepsVia-bind second itself c _ _ (push_guard-Keeps c e) λ c₁.
              KeepsVia-bind second second c₁ _ _ (keeps st env c₁ bb) λ (st₁, c₂) x h.
                Keeps-trans (resume-Keeps c₂ c c₂ (Keeps-refl c₂))
                  (check_targets-Keeps st₁ env (resume c c₂) ty targets x h)

      check_switch_int-Keeps :
          (st : State) (env : TypeEnv) (c : Cursor) (discr : Operand) (targets : SwitchTargets)
          → KeepsVia second c (check_switch_int cx goal goto st env c discr targets)
      unfolding check_switch_int
      check_switch_int-Keeps st env c discr targets =
          KeepsVia-pure second c (check_operand env discr) _ λ (ty, env₁).
            KeepsVia-bind second second c _ _ (check_targets-Keeps st env₁ c ty targets.targets)
              λ (st₁, c₁).
                KeepsVia-bind second itself c₁ _ _ (push_otherwise-Keeps c₁ ty targets.targets)
                  λ c₂.
                    KeepsVia-bind second second c₂ _ _ (keeps st₁ env₁ c₂ targets.otherwise)
                      λ (st₂, c₃). KeepsVia-ok second c₃ _ (resume-Keeps c₃ c₁ c₃ (Keeps-refl c₃))

      check_destination-Keeps :
          (st : State) (env : TypeEnv) (c : Cursor) (subst : Subst) (ret : Core.Ty)
          (o : Option (Place × BasicBlock))
          → KeepsVia second c (check_destination cx goal goto st env c subst ret o)
      unfolding check_destination
      check_destination-Keeps st env c subst ret none = KeepsVia-ok second c _ (Keeps-refl c)
      check_destination-Keeps st env c subst ret (some (place, bb)) =
          KeepsVia-bind second second c _ _ (lower_ty-Keeps subst c ret) λ (lowered, c₁).
            KeepsVia-bind second second c₁ _ _ (unpack-KeepsVia c₁ lowered) λ (ty, c₂).
              KeepsVia-bind second second c₂ _ _ (write_place-Keeps cx.variances_of env c₂ place ty)
                λ (env₁, c₃). keeps st env₁ c₃ bb

      check_terminator-Keeps :
          (st : State) (env : TypeEnv) (c : Cursor) (terminator : Terminator)
          → KeepsVia second c (check_terminator cx goal goto st env c terminator)
      unfolding check_terminator
      check_terminator-Keeps st env c Terminator.return = check_return-Keeps st env c
      check_terminator-Keeps st env c (Terminator.goto target) = keeps st env c target
      check_terminator-Keeps st env c (Terminator.switch_int discr targets) =
          check_switch_int-Keeps st env c discr targets
      check_terminator-Keeps st env c (Terminator.call func substs args destination) =
          KeepsVia-pure second c (lookup_fn_sig cx func) _ λ sig.
            KeepsVia-bind second third c _ _
              (call_effects-Keeps cx.variances_of env c sig substs args)
              λ (env₁, (subst, c₁)). check_destination-Keeps st env₁ c₁ subst sig.ret destination
      check_terminator-Keeps st env c (Terminator.drop place target) =
          KeepsVia-pure second c (move_place env place) _ λ (ty, env₁). keeps st env₁ c target

      check_optional_terminator-Keeps :
          (st : State) (env : TypeEnv) (c : Cursor) (o : Option Terminator)
          → KeepsVia second c (check_optional_terminator cx goal goto st env c o)
      check_optional_terminator-Keeps st env c none = KeepsVia-ok second c _ (Keeps-refl c)
      check_optional_terminator-Keeps st env c (some terminator) =
          check_terminator-Keeps st env c terminator

      pub check_basic_block-Keeps :
          (st : State) (env : TypeEnv) (c : Cursor) (bb : BasicBlock)
          → KeepsVia second c (check_basic_block cx goal goto st env c bb)
      unfolding check_basic_block
      check_basic_block-Keeps st env c bb x h =
          let c₁ = if contains goal.dominates_join_point bb then push_scope c else c in
          let start : Keeps c c₁ = elim (Bool-cases (contains goal.dominates_join_point bb)) [
            | inl e ↦ rw e (push_scope-Keeps c)
            | inr e ↦ rw e (Keeps-refl c)
          ] in
          Keeps-trans start (
            KeepsVia-pure second c₁ (unwrap (get_elem? cx.body.basic_blocks bb)) _
              (λ block.
                KeepsVia-bind second second c₁ _ _
                  (check_statements-Keeps cx.variances_of env c₁ block.statements)
                  λ (env₁, c₂). check_optional_terminator-Keeps _ env₁ c₂ block.terminator)
              x h)

    pub check_goto-Keeps :
        (fuel : ℕ) (st : State) (env : TypeEnv) (c : Cursor) (target : BasicBlock)
        → KeepsVia second c (check_goto cx goal fuel st env c target)
    unfolding check_goto
    check_goto-Keeps zero st env c target = KeepsVia-panic second c
    check_goto-Keeps (suc fuel) st env c target =
        elim (is_join_point cx target)
          as (λ b. KeepsVia second c (elim b [
            | true ↦ check_goto_join_point cx st.mode st env c target
            | false ↦ check_basic_block cx goal (check_goto cx goal fuel) st env c target
          ])) [
            | true ↦ check_goto_join_point-Keeps st.mode st env c target
            | false ↦
                check_basic_block-Keeps (check_goto cx goal fuel) (check_goto-Keeps fuel) st env c
                  target
          ]
