-- ===== src/Typeck/TypeEnv/Merge.antt =====
-- The environments of join points, liquid-rust-typeck/src/type_env.rs: `join_with`, `infer_bb_env` and
-- `transform_into`.
use liquid_rust.Base.{
  ℕ, List, [], ◌∷◌, Option, none, some, Outcome, ok, ◌>>=◌, unwrap, find, insert, leb,
  if◌then◌else◌, ℕ_discrete,
}
use liquid_rust.Fixpoint.Constraint.{Kvid, Sort}
use liquid_rust.Typeck.Ty.{Loc, Pred, Ty, BaseTy, Tys, DefId, Loc-discrete, base_sort, walk}
use liquid_rust.Typeck.Builder.{Cursor, fresh_kvar_at_last_scope}
use liquid_rust.Typeck.Builder.Subtyping.{Variance}
use liquid_rust.Typeck.TypeEnv.{
  TypeEnv, TypeEnvShape, Binding, find_loc, lookup_loc, binding_ty, strong_at, insert_loc,
  weakening, cursor_subtyping,
}
use liquid_rust.Typeck.TypeEnv.Levels.{Levels, level_of, levels, sorted_by_level}
use liquid_rust.Typeck.TypeEnv.Join.{State, ref_weak, strg_ty_join}

-- The unknown predicates of a shape, with those that take their place
abbrev pub KvarMap : Type 0
KvarMap = List (Kvid × Pred)

-- `entry(kvid).or_insert_with(fresh)`
unfoldable pub or_insert_kvar :
    KvarMap → Cursor → Kvid → Sort → Option Pred → Outcome (KvarMap × Cursor)
or_insert_kvar kvars c kvid sort (some _) = ok (kvars, c)
or_insert_kvar kvars c kvid sort none = do
  (fresh, c₁) ← fresh_kvar_at_last_scope c sort
  ok (insert ℕ_discrete kvars kvid fresh, c₁)

-- The closure that `walk` calls, on each type that it visits
unfoldable pub collect_kvar : KvarMap → Cursor → Ty → Outcome (KvarMap × Cursor)
collect_kvar kvars c (Ty.exists bty (Pred.kvar kvid _)) =
    or_insert_kvar kvars c kvid (base_sort bty) (find ℕ_discrete kvars kvid)
collect_kvar kvars c _ = ok (kvars, c)

unfoldable pub collect_kvars_in : KvarMap → Cursor → List Ty → Outcome (KvarMap × Cursor)
collect_kvars_in kvars c [] = ok (kvars, c)
collect_kvars_in kvars c (ty ∷ tys) = do
  (kvars₁, c₁) ← collect_kvar kvars c ty
  collect_kvars_in kvars₁ c₁ tys

unfoldable pub collect_kvars : KvarMap → Cursor → TypeEnvShape → Outcome (KvarMap × Cursor)
collect_kvars kvars c [] = ok (kvars, c)
collect_kvars kvars c ((_, ty) ∷ shape) = do
  (kvars₁, c₁) ← collect_kvars_in kvars c (walk ty)
  collect_kvars kvars₁ c₁ shape

-- The shape's referents with those of the environment
abbrev pub LocMap : Type 0
LocMap = List (Loc × Loc)

unfoldable pub match_referents : LocMap → Ty → Option Ty → LocMap
match_referents locs (Ty.strg_ref loc1) (some (Ty.strg_ref loc2)) =
    insert Loc-discrete locs loc1 loc2
match_referents locs _ _ = locs

unfoldable pub match_locs : TypeEnv → LocMap → TypeEnvShape → LocMap
match_locs env locs [] = locs
match_locs env locs ((loc, ty1) ∷ shape) =
    match_locs env (match_referents locs ty1 (lookup_loc env loc)) shape

abbrev pub or_same : Option Loc → Loc → Loc
or_same none loc = loc
or_same (some loc') loc = loc'

-- `replace_kvars`; the predicate map is indexed, which panics on a missing key.
unfoldable mutual
  pub replace_kvars : KvarMap → Ty → Outcome Ty
  replace_kvars kvars (Ty.refine bty e) = ok (Ty.refine bty e)
  replace_kvars kvars (Ty.exists bty (Pred.kvar kvid _)) = do
    bty' ← replace_kvars_bty kvars bty
    p ← unwrap (find ℕ_discrete kvars kvid)
    ok (Ty.exists bty' p)
  replace_kvars kvars (Ty.exists bty (Pred.expr e)) = ok (Ty.exists bty (Pred.expr e))
  replace_kvars kvars Ty.uninit = ok Ty.uninit
  replace_kvars kvars (Ty.strg_ref loc) = ok (Ty.strg_ref loc)
  replace_kvars kvars (Ty.ref ty) = do ty' ← replace_kvars kvars ty; ok (Ty.ref ty')
  replace_kvars kvars (Ty.param p) = ok (Ty.param p)

  pub replace_kvars_bty : KvarMap → BaseTy → Outcome BaseTy
  replace_kvars_bty kvars (BaseTy.adt did substs) = do
    substs' ← replace_kvars_substs kvars substs
    ok (BaseTy.adt did substs')
  replace_kvars_bty kvars (BaseTy.int i) = ok (BaseTy.int i)
  replace_kvars_bty kvars (BaseTy.uint i) = ok (BaseTy.uint i)
  replace_kvars_bty kvars BaseTy.bool = ok BaseTy.bool

  pub replace_kvars_substs : KvarMap → Tys → Outcome Tys
  replace_kvars_substs kvars Tys.nil = ok Tys.nil
  replace_kvars_substs kvars (Tys.cons ty tys) = do
    ty' ← replace_kvars kvars ty
    tys' ← replace_kvars_substs kvars tys
    ok (Tys.cons ty' tys')

-- The type that a location gets, from that of the shape and that of the environment
unfoldable pub shaped_ty : KvarMap → Ty → Ty → Outcome Ty
shaped_ty kvars (Ty.refine _ _) (Ty.refine bty2 e2) = ok (Ty.refine bty2 e2)
shaped_ty kvars (Ty.strg_ref _) (Ty.strg_ref loc2) = ok (Ty.strg_ref loc2)
shaped_ty kvars _ Ty.uninit = ok Ty.uninit
shaped_ty kvars ty1 _ = replace_kvars kvars ty1

-- The last loop of `infer_bb_env`
unfoldable pub shaped_env : TypeEnv → KvarMap → LocMap → TypeEnv → TypeEnvShape → Outcome TypeEnv
shaped_env env kvars locs result [] = ok result
shaped_env env kvars locs result ((loc, ty1) ∷ shape) = do
  let loc' = or_same (find Loc-discrete locs loc) loc
  binding ← unwrap (find_loc env loc')
  ty ← shaped_ty kvars ty1 (binding_ty binding)
  shaped_env env kvars locs (insert_loc result loc' ty) shape

unfoldable pub infer_bb_env : TypeEnv → Cursor → TypeEnvShape → Outcome (TypeEnv × Cursor)
infer_bb_env env c shape = do
  (kvars, c₁) ← collect_kvars [] c shape
  result ← shaped_env env kvars (match_locs env [] shape) [] shape
  ok (result, c₁)

-- `u32::max`
abbrev pub max : ℕ → ℕ → ℕ
max m n = if leb m n then n else m

-- The levels, each raised to that of the other environment.
unfoldable pub raise_levels : Levels → Levels → Outcome Levels
raise_levels [] other = ok []
raise_levels ((loc, level) ∷ rest) other = do
  level' ← unwrap (level_of other loc)
  rest' ← raise_levels rest other
  ok ((loc, max level level') ∷ rest')

unfoldable pub reversed : Levels → Levels → Levels
reversed [] done = done
reversed (x ∷ xs) done = reversed xs (x ∷ done)

module _ (variances_of : DefId → List Variance) where
  -- The arms of the loop of `transform_into`
  unfoldable pub transform_ty : TypeEnv → Cursor → Ty → Ty → Outcome State
  transform_ty env c (Ty.strg_ref loc) (Ty.ref bound) = ref_weak variances_of env c loc bound
  transform_ty env c ty1 ty2 = do c₁ ← cursor_subtyping variances_of c ty1 ty2; ok (env, c₁)

  unfoldable pub transform_locs : TypeEnv → Levels → TypeEnv → Cursor → Outcome State
  transform_locs other [] env c = ok (env, c)
  transform_locs other ((loc, _) ∷ locs) env c = do
    ty1 ← strong_at env loc
    ty2 ← strong_at other loc
    (env₁, c₁) ← transform_ty env c ty1 ty2
    transform_locs other locs (insert_loc env₁ loc ty2) c₁

  unfoldable pub transform_into : TypeEnv → Cursor → TypeEnv → Outcome State
  transform_into env c other = do
    let env₁ = weakening env other
    ls ← levels env₁
    transform_locs other (reversed (sorted_by_level ls) []) env₁ c

  -- Two strong bindings are joined; any others stay. `fuel` bounds the joins.
  unfoldable pub join_bindings : ℕ → TypeEnv → Cursor → Loc → Binding → Binding → Outcome State
  join_bindings fuel env c loc (Binding.strong ty1) (Binding.strong ty2) = do
    (ty, (env₁, c₁)) ← strg_ty_join variances_of fuel env c ty1 ty2
    ok (insert_loc env₁ loc ty, c₁)
  join_bindings fuel env c loc _ _ = ok (env, c)

  unfoldable pub join_locs : ℕ → TypeEnv → Levels → TypeEnv → Cursor → Outcome State
  join_locs fuel other [] env c = ok (env, c)
  join_locs fuel other ((loc, _) ∷ locs) env c = do
    binding1 ← unwrap (find_loc env loc)
    binding2 ← unwrap (find_loc other loc)
    (env₁, c₁) ← join_bindings fuel env c loc binding1 binding2
    join_locs fuel other locs env₁ c₁

  unfoldable pub join_with : ℕ → TypeEnv → Cursor → TypeEnv → Outcome State
  join_with fuel env c other = do
    let env₁ = weakening env other
    ls ← levels env₁
    ls_other ← levels other
    raised ← raise_levels ls ls_other
    join_locs fuel other (sorted_by_level raised) env₁ c
