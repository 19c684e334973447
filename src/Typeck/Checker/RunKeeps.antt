-- ===== src/Typeck/Checker/RunKeeps.antt =====
-- The run over a whole body, liquid-rust-typeck/src/checker.rs, loses no obligation.
use liquid_rust.Base.{ℕ, ◌≡◌, List, [], ◌∷◌, true, false, ok, ◌>>=◌, unwrap, find, ℕ_discrete}
use liquid_rust.Core.Ir.{BasicBlock}
use liquid_rust.Typeck.Builder.{Cursor}
use liquid_rust.Typeck.Builder.Keeps.{Keeps, Keeps-refl}
use liquid_rust.Typeck.Builder.Monotone.{
  KeepsVia, KeepsVia-ok, KeepsVia-pure, KeepsVia-bind, second,
}
use liquid_rust.Typeck.TypeEnv as TypeEnv
use liquid_rust.Typeck.TypeEnv.{TypeEnv, TypeEnvShape, lookup_loc, lookup_local, move_place}
use liquid_rust.Typeck.TypeEnv.Keeps.{unpack-Keeps}
use liquid_rust.Typeck.Checker.Flow.{Context, State, Goal, contains, check_basic_block, check_goto}
use liquid_rust.Typeck.Checker.Run.{run_blocks, run}
use liquid_rust.Typeck.Checker.FlowKeeps.{check_goto-Keeps, check_basic_block-Keeps}

module _ (cx : Context) (goal : Goal) where
  run_blocks-Keeps :
      (fuel : ℕ) (st : State) (c : Cursor) (bbs : List BasicBlock)
      → KeepsVia second c (run_blocks cx goal fuel st c bbs)
  unfolding run_blocks
  run_blocks-Keeps fuel st c [] = KeepsVia-ok second c _ (Keeps-refl c)
  run_blocks-Keeps fuel st c (bb ∷ bbs) =
      elim (contains st.visited bb)
        as (λ b. KeepsVia second c (elim b [
          | true ↦ run_blocks cx goal fuel st c bbs
          | false ↦ unwrap (find ℕ_discrete st.bb_envs bb) >>= λ bb_env.
              TypeEnv.unpack bb_env c >>= λ (env, c₁).
              check_basic_block cx goal (check_goto cx goal fuel) st env c₁ bb >>= λ (st₁, c₂).
              run_blocks cx goal fuel st₁ c₂ bbs
        ])) [
          | true ↦ run_blocks-Keeps fuel st c bbs
          | false ↦ KeepsVia-pure second c (unwrap (find ℕ_discrete st.bb_envs bb)) _ λ bb_env.
              KeepsVia-bind second second c _ _ (unpack-Keeps bb_env c) λ (env, c₁).
                KeepsVia-bind second second c₁ _ _
                  (check_basic_block-Keeps cx goal (check_goto cx goal fuel)
                    (check_goto-Keeps cx goal fuel) st env c₁ bb)
                  λ (st₁, c₂). run_blocks-Keeps fuel st₁ c₂ bbs
        ]

-- No step of the check of a body loses an obligation: where the run gives a cursor, the constraint
-- tree after it implies the tree before it, in every structure and environment; what holds at a
-- place of the tree after it holds at that place of the tree before it; the counter of names is not
-- smaller than before; and no name is reused: a name that was generated before is bound as often as
-- before, one that is not generated yet is not bound anew, and no name gets more than one new binder.
pub run-Keeps :
    (cx : Context) (goal : Goal) (fuel : ℕ) (st : State) (env : TypeEnv) (c : Cursor) (st' : State)
    (c' : Cursor)
    → run cx goal fuel st env c ≡ ok (st', c')
    → Keeps c c'
unfolding run
run-Keeps cx goal fuel st env c st' c' h =
    KeepsVia-bind second second c _ _ (check_goto-Keeps cx goal fuel st env c 0)
      (λ (st₁, c₁). run_blocks-Keeps cx goal fuel st₁ c₁ cx.reverse_postorder) (st', c') h
