-- ===== src/Typeck/TypeEnv/Keeps.antt =====
-- The operations of an environment, liquid-rust-typeck/src/type_env.rs, keep the obligations of the
-- cursor that they are given.
use liquid_rust.Base.{
  refl, List, [], ◌∷◌, Outcome, unwrap, assert, arith, find, none, some, ℕ_discrete, Option,
}
use liquid_rust.Fixpoint.Constraint.{Kvid, Sort}
use liquid_rust.Core.Ir.{Place}
use liquid_rust.Typeck.Ty.{Loc, Ty, Pred, DefId, base_sort, walk}
use liquid_rust.Typeck.Builder.{Cursor, fresh_name}
use liquid_rust.Typeck.Builder.Subtyping.{Variance}
use liquid_rust.Typeck.Builder.Keeps.{Keeps-refl, Keeps-trans, Keeps-same, subtyping-Keeps}
use liquid_rust.Typeck.Builder.Monotone.{
  KeepsVia, KeepsVia-ok, KeepsVia-panic, KeepsVia-pure, KeepsVia-bind, itself, second,
  unpack-KeepsVia, fresh_kvar_at_last_scope-KeepsVia,
}
use liquid_rust.Typeck.TypeEnv.{
  TypeEnv, TypeEnvShape, Binding, binding_ty, find_loc, strong_at, walk_place, unpack_loc,
  unpack_locs, unpack, update_binding, update_loc, write_loc, write_place, cursor_subtyping,
}
use liquid_rust.Typeck.TypeEnv.Join.{ref_weak_ref, ref_weak, State, Ty-discrete}
use liquid_rust.Typeck.TypeEnv.Merge.{
  KvarMap, or_insert_kvar, collect_kvar, collect_kvars_in, collect_kvars, infer_bb_env,
}

unpack_loc-Keeps :
    (env : TypeEnv) (c : Cursor) (loc : Loc) (binding : Binding) (ty : Ty)
    → KeepsVia second c (unpack_loc env c loc binding ty)
unfolding unpack_loc fresh_name
unpack_loc-Keeps env c loc binding (Ty.exists bty p) =
    KeepsVia-bind second second c _ _ (unpack-KeepsVia c (Ty.exists bty p))
      (λ (ty, c₁). KeepsVia-ok second c₁ _ (Keeps-refl c₁))
unpack_loc-Keeps env c loc binding (Ty.ref bound) =
    let c₁ = (fresh_name c).1 in
    KeepsVia-bind second second c _ _
      (λ r h. Keeps-trans (Keeps-same c c₁ refl (omega arith)) (unpack-KeepsVia c₁ bound r h))
      (λ (ty, c₂). KeepsVia-ok second c₂ _ (Keeps-refl c₂))
unpack_loc-Keeps env c loc binding _ = KeepsVia-ok second c _ (Keeps-refl c)

unpack_locs-Keeps :
    (env : TypeEnv) (c : Cursor) (locs : List Loc) → KeepsVia second c (unpack_locs env c locs)
unfolding unpack_locs
unpack_locs-Keeps env c [] = KeepsVia-ok second c _ (Keeps-refl c)
unpack_locs-Keeps env c (loc ∷ locs) =
    KeepsVia-pure second c (unwrap (find_loc env loc)) _ λ binding.
      KeepsVia-bind second second c _ _ (unpack_loc-Keeps env c loc binding (binding_ty binding))
        (λ (env₁, c₁). unpack_locs-Keeps env₁ c₁ locs)

pub unpack-Keeps : (env : TypeEnv) (c : Cursor) → KeepsVia second c (unpack env c)
unfolding unpack
unpack-Keeps env c = unpack_locs-Keeps env c _

or_insert_kvar-Keeps :
    (kvars : KvarMap) (c : Cursor) (k : Kvid) (s : Sort) (o : Option Pred)
    → KeepsVia second c (or_insert_kvar kvars c k s o)
unfolding or_insert_kvar
or_insert_kvar-Keeps kvars c k s (some _) = KeepsVia-ok second c _ (Keeps-refl c)
or_insert_kvar-Keeps kvars c k s none =
    KeepsVia-bind second second c _ _ (fresh_kvar_at_last_scope-KeepsVia c s)
      (λ (p, c₁). KeepsVia-ok second c₁ _ (Keeps-refl c₁))

collect_kvar-Keeps :
    (kvars : KvarMap) (c : Cursor) (ty : Ty) → KeepsVia second c (collect_kvar kvars c ty)
unfolding collect_kvar
collect_kvar-Keeps kvars c (Ty.exists bty (Pred.kvar k _)) =
    or_insert_kvar-Keeps kvars c k (base_sort bty) (find ℕ_discrete kvars k)
collect_kvar-Keeps kvars c _ = KeepsVia-ok second c _ (Keeps-refl c)

collect_kvars_in-Keeps :
    (kvars : KvarMap) (c : Cursor) (tys : List Ty)
    → KeepsVia second c (collect_kvars_in kvars c tys)
unfolding collect_kvars_in
collect_kvars_in-Keeps kvars c [] = KeepsVia-ok second c _ (Keeps-refl c)
collect_kvars_in-Keeps kvars c (ty ∷ tys) =
    KeepsVia-bind second second c _ _ (collect_kvar-Keeps kvars c ty)
      (λ (kvars₁, c₁). collect_kvars_in-Keeps kvars₁ c₁ tys)

collect_kvars-Keeps :
    (kvars : KvarMap) (c : Cursor) (shape : TypeEnvShape)
    → KeepsVia second c (collect_kvars kvars c shape)
unfolding collect_kvars
collect_kvars-Keeps kvars c [] = KeepsVia-ok second c _ (Keeps-refl c)
collect_kvars-Keeps kvars c ((_, ty) ∷ shape) =
    KeepsVia-bind second second c _ _ (collect_kvars_in-Keeps kvars c (walk ty))
      (λ (kvars₁, c₁). collect_kvars-Keeps kvars₁ c₁ shape)

pub infer_bb_env-Keeps :
    (env : TypeEnv) (c : Cursor) (shape : TypeEnvShape)
    → KeepsVia second c (infer_bb_env env c shape)
unfolding infer_bb_env
infer_bb_env-Keeps env c shape =
    KeepsVia-bind second second c _ _ (collect_kvars-Keeps [] c shape) (λ (kvars, c₁).
      KeepsVia-pure second c₁ _ _ (λ result. KeepsVia-ok second c₁ _ (Keeps-refl c₁)))

module _ (variances_of : DefId → List Variance) where
  pub cursor_subtyping-Keeps :
      (c : Cursor) (ty1 ty2 : Ty) → KeepsVia itself c (cursor_subtyping variances_of c ty1 ty2)
  cursor_subtyping-Keeps c ty1 ty2 c' h = subtyping-Keeps variances_of _ c ty1 ty2 c' h

  update_binding-Keeps :
      (env : TypeEnv) (c : Cursor) (loc : Loc) (ty : Ty) (binding : Binding)
      → KeepsVia second c (update_binding variances_of env c loc ty binding)
  unfolding update_binding
  update_binding-Keeps env c loc ty (Binding.strong _) = KeepsVia-ok second c _ (Keeps-refl c)
  update_binding-Keeps env c loc ty (Binding.weak bound _) =
      KeepsVia-bind second itself c _ _ (cursor_subtyping-Keeps c ty bound)
        (λ c₁. KeepsVia-ok second c₁ _ (Keeps-refl c₁))

  pub update_loc-Keeps :
      (env : TypeEnv) (c : Cursor) (loc : Loc) (ty : Ty)
      → KeepsVia second c (update_loc variances_of env c loc ty)
  unfolding update_loc
  update_loc-Keeps env c loc ty =
      KeepsVia-pure second c (unwrap (find_loc env loc)) _ (update_binding-Keeps env c loc ty)

  write_loc-Keeps :
      (env : TypeEnv) (c : Cursor) (loc : Loc) (new_ty ty : Ty)
      → KeepsVia second c (write_loc variances_of env c loc new_ty ty)
  unfolding write_loc
  write_loc-Keeps env c loc new_ty (Ty.ref _) = KeepsVia-panic second c
  write_loc-Keeps env c loc new_ty (Ty.exists _ _) = KeepsVia-panic second c
  write_loc-Keeps env c loc new_ty _ = update_loc-Keeps env c loc new_ty

  pub write_place-Keeps :
      (env : TypeEnv) (c : Cursor) (place : Place) (ty : Ty)
      → KeepsVia second c (write_place variances_of env c place ty)
  unfolding write_place
  write_place-Keeps env c place ty =
      KeepsVia-pure second c (walk_place env place) _
        (λ (loc, old). write_loc-Keeps env c loc ty old)

  ref_weak_ref-Keeps :
      (env : TypeEnv) (c : Cursor) (loc : Loc) (ty bound : Ty) (next : Loc → Outcome State)
      → ((referee : Loc) → KeepsVia second c (next referee))
      → KeepsVia second c (ref_weak_ref variances_of env c loc ty bound next)
  unfolding ref_weak_ref
  ref_weak_ref-Keeps env c loc (Ty.strg_ref referee) bound next k =
      KeepsVia-bind second second c _ _ (k referee)
        (λ (env₁, c₁). KeepsVia-ok second c₁ _ (Keeps-refl c₁))
  ref_weak_ref-Keeps env c loc (Ty.ref bound') bound next k =
      KeepsVia-pure second c (assert (Ty-discrete bound' bound)) _
        (λ _. KeepsVia-ok second c _ (Keeps-refl c))
  ref_weak_ref-Keeps env c loc _ bound next k = KeepsVia-panic second c

  pub ref_weak-Keeps :
      (env : TypeEnv) (c : Cursor) (loc : Loc) (bound : Ty)
      → KeepsVia second c (ref_weak variances_of env c loc bound)
  unfolding ref_weak
  ref_weak-Keeps env c loc (Ty.exists bty p) = KeepsVia-pure second c (strong_at env loc) _ λ ty.
      KeepsVia-bind second itself c _ _ (cursor_subtyping-Keeps c ty (Ty.exists bty p))
        (λ c₁. KeepsVia-ok second c₁ _ (Keeps-refl c₁))
  ref_weak-Keeps env c loc (Ty.ref bound) =
      KeepsVia-pure second c (strong_at env loc) _ λ ty.
        ref_weak_ref-Keeps env c loc ty bound _ (λ referee. ref_weak-Keeps env c referee bound)
  ref_weak-Keeps env c loc _ = KeepsVia-panic second c
