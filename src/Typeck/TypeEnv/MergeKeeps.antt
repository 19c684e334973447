-- ===== src/Typeck/TypeEnv/MergeKeeps.antt =====
-- The environments of join points, liquid-rust-typeck/src/type_env.rs, keep the obligations of the
-- cursor.
use liquid_rust.Base.{ℕ, List, [], ◌∷◌, unwrap}
use liquid_rust.Typeck.Ty.{Loc, Ty, DefId}
use liquid_rust.Typeck.Builder.{Cursor}
use liquid_rust.Typeck.Builder.Subtyping.{Variance}
use liquid_rust.Typeck.Builder.Keeps.{Keeps-refl}
use liquid_rust.Typeck.Builder.Monotone.{
  KeepsVia, KeepsVia-ok, KeepsVia-pure, KeepsVia-bind, itself, second, third,
}
use liquid_rust.Typeck.TypeEnv.{TypeEnv, Binding, find_loc, strong_at, weakening}
use liquid_rust.Typeck.TypeEnv.Levels.{Levels, levels}
use liquid_rust.Typeck.TypeEnv.Merge.{
  transform_ty, transform_locs, transform_into, join_bindings, join_locs, join_with, raise_levels,
}
use liquid_rust.Typeck.TypeEnv.Keeps.{ref_weak-Keeps, cursor_subtyping-Keeps}
use liquid_rust.Typeck.TypeEnv.JoinKeeps.{strg_ty_join-Keeps}

module _ (variances_of : DefId → List Variance) where
  transform_ty-Keeps :
      (env : TypeEnv) (c : Cursor) (ty1 ty2 : Ty)
      → KeepsVia second c (transform_ty variances_of env c ty1 ty2)
  unfolding transform_ty
  transform_ty-Keeps env c (Ty.strg_ref loc) (Ty.ref bound) =
      ref_weak-Keeps variances_of env c loc bound
  transform_ty-Keeps env c ty1 ty2 =
      KeepsVia-bind second itself c _ _ (cursor_subtyping-Keeps variances_of c ty1 ty2)
        (λ c₁. KeepsVia-ok second c₁ _ (Keeps-refl c₁))

  transform_locs-Keeps :
      (other : TypeEnv) (locs : Levels) (env : TypeEnv) (c : Cursor)
      → KeepsVia second c (transform_locs variances_of other locs env c)
  unfolding transform_locs
  transform_locs-Keeps other [] env c = KeepsVia-ok second c _ (Keeps-refl c)
  transform_locs-Keeps other ((loc, _) ∷ locs) env c =
      KeepsVia-pure second c (strong_at env loc) _ λ ty1.
        KeepsVia-pure second c (strong_at other loc) _ λ ty2.
          KeepsVia-bind second second c _ _ (transform_ty-Keeps env c ty1 ty2)
            λ (env₁, c₁). transform_locs-Keeps other locs _ c₁

  pub transform_into-Keeps :
      (env : TypeEnv) (c : Cursor) (other : TypeEnv)
      → KeepsVia second c (transform_into variances_of env c other)
  unfolding transform_into
  transform_into-Keeps env c other =
      KeepsVia-pure second c (levels (weakening env other)) _
        λ ls. transform_locs-Keeps other _ (weakening env other) c

  join_bindings-Keeps :
      (fuel : ℕ) (env : TypeEnv) (c : Cursor) (loc : Loc) (binding1 binding2 : Binding)
      → KeepsVia second c (join_bindings variances_of fuel env c loc binding1 binding2)
  unfolding join_bindings
  join_bindings-Keeps fuel env c loc (Binding.strong ty1) (Binding.strong ty2) =
      KeepsVia-bind second third c _ _ (strg_ty_join-Keeps variances_of fuel env c ty1 ty2)
        λ (ty, (env₁, c₁)). KeepsVia-ok second c₁ _ (Keeps-refl c₁)
  join_bindings-Keeps fuel env c loc _ _ = KeepsVia-ok second c _ (Keeps-refl c)

  join_locs-Keeps :
      (fuel : ℕ) (other : TypeEnv) (locs : Levels) (env : TypeEnv) (c : Cursor)
      → KeepsVia second c (join_locs variances_of fuel other locs env c)
  unfolding join_locs
  join_locs-Keeps fuel other [] env c = KeepsVia-ok second c _ (Keeps-refl c)
  join_locs-Keeps fuel other ((loc, _) ∷ locs) env c =
      KeepsVia-pure second c (unwrap (find_loc env loc)) _ λ binding1.
        KeepsVia-pure second c (unwrap (find_loc other loc)) _ λ binding2.
          KeepsVia-bind second second c _ _ (join_bindings-Keeps fuel env c loc binding1 binding2)
            λ (env₁, c₁). join_locs-Keeps fuel other locs env₁ c₁

  pub join_with-Keeps :
      (fuel : ℕ) (env : TypeEnv) (c : Cursor) (other : TypeEnv)
      → KeepsVia second c (join_with variances_of fuel env c other)
  unfolding join_with
  join_with-Keeps fuel env c other = KeepsVia-pure second c (levels (weakening env other)) _ λ ls.
      KeepsVia-pure second c (levels other) _ λ ls_other.
        KeepsVia-pure second c (raise_levels ls ls_other) _
          λ raised. join_locs-Keeps fuel other _ (weakening env other) c
