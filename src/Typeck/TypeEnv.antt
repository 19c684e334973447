-- ===== src/Typeck/TypeEnv.antt =====
-- `TypeEnv` of liquid-rust-typeck/src/type_env.rs: the types of locations at a point of a body. A
-- `&mut Cursor` is a state that is returned, and so is the environment.
pub mod Levels
pub mod Join
pub mod Merge
pub mod Keeps
pub mod Lookup
pub mod Unpacked
pub mod Update
pub mod JoinKeeps
pub mod MergeKeeps
use liquid_rust.Base.{
  ℕ, zero, suc, ◌+◌, Bool, true, false, List, [], ◌∷◌, map, Option, none, some, Outcome, ok,
  reported, panicked, ◌>>=◌, ◌>>◌, unwrap, assert, find, insert, keys,
}
use liquid_rust.Core.Ir.{Place, PlaceElem}
use liquid_rust.Typeck.Ty.{Loc, Local, Ty, BaseTy, Tys, DefId, Loc-discrete, is_uninit}
use liquid_rust.Typeck.Builder as Builder
use liquid_rust.Typeck.Builder.{Cursor, fresh_name}
use liquid_rust.Typeck.Builder.Subtyping.{Variance, subtyping}
use liquid_rust.Typeck.Builder.Shapes.{nesting}

pub data Binding : Type 0 where
  strong : Ty → Binding
  weak : (bound ty : Ty) → Binding

-- `Binding::ty`
abbrev pub binding_ty : Binding → Ty
binding_ty (Binding.strong ty) = ty
binding_ty (Binding.weak bound ty) = ty

-- `Binding::assert_strong`
abbrev pub assert_strong : Binding → Outcome Ty
assert_strong (Binding.strong ty) = ok ty
assert_strong (Binding.weak bound ty) = panicked

-- A write through `Binding::ty_mut`
abbrev pub set_ty : Binding → Ty → Binding
set_ty (Binding.strong _) ty = Binding.strong ty
set_ty (Binding.weak bound _) ty = Binding.weak bound ty

abbrev pub TypeEnv : Type 0
TypeEnv = List (Loc × Binding)

-- `TypeEnvShape`
abbrev pub TypeEnvShape : Type 0
TypeEnvShape = List (Loc × Ty)

abbrev pub into_shape : TypeEnv → TypeEnvShape
into_shape env = map (λ (loc, binding). (loc, binding_ty binding)) env

abbrev pub find_loc : TypeEnv → Loc → Option Binding
find_loc env loc = find Loc-discrete env loc

abbrev pub some_ty : Option Binding → Option Ty
some_ty none = none
some_ty (some binding) = some (binding_ty binding)

abbrev pub lookup_loc : TypeEnv → Loc → Option Ty
lookup_loc env loc = some_ty (find_loc env loc)

abbrev pub lookup_local : TypeEnv → Local → Outcome Ty
lookup_local env local = unwrap (lookup_loc env (Loc.local local))

abbrev pub insert_binding : TypeEnv → Loc → Binding → TypeEnv
insert_binding env loc binding = insert Loc-discrete env loc binding

abbrev pub insert_loc : TypeEnv → Loc → Ty → TypeEnv
insert_loc env loc ty = insert_binding env loc (Binding.strong ty)

-- `self.bindings[&loc].assert_strong()`
abbrev pub strong_at : TypeEnv → Loc → Outcome Ty
strong_at env loc = do binding ← unwrap (find_loc env loc); assert_strong binding

-- The loop of `walk_place`; a projection is a dereference.
unfoldable pub walk_projection : TypeEnv → Loc → Ty → List PlaceElem → Outcome (Loc × Ty)
walk_projection env loc ty [] = ok (loc, ty)
walk_projection env loc (Ty.strg_ref referee) (PlaceElem.deref ∷ elems) = do
  ty ← unwrap (lookup_loc env referee)
  walk_projection env referee ty elems
walk_projection env loc _ (PlaceElem.deref ∷ elems) = panicked

unfoldable pub walk_place : TypeEnv → Place → Outcome (Loc × Ty)
walk_place env place = do
  ty ← lookup_local env place.local
  walk_projection env (Loc.local place.local) ty place.projection

unfoldable pub lookup_place : TypeEnv → Place → Outcome Ty
lookup_place env place = do (_, ty) ← walk_place env place; ok ty

unfoldable pub get_loc : TypeEnv → Place → Outcome Loc
get_loc env place = do (loc, _) ← walk_place env place; ok loc

abbrev pub no_projection : List PlaceElem → Outcome (Unit {0})
no_projection [] = ok tt
no_projection (_ ∷ _) = panicked

unfoldable pub move_place : TypeEnv → Place → Outcome (Ty × TypeEnv)
move_place env place = do
  no_projection place.projection
  ty ← lookup_local env place.local
  ok (ty, insert_loc env (Loc.local place.local) Ty.uninit)

-- The loop of `unpack` over the locations that the environment had at first.
unfoldable pub unpack_loc : TypeEnv → Cursor → Loc → Binding → Ty → Outcome (TypeEnv × Cursor)
unpack_loc env c loc binding (Ty.exists bty p) = do
  (ty, c₁) ← Builder.unpack c (Ty.exists bty p)
  ok (insert_binding env loc (set_ty binding ty), c₁)
unpack_loc env c loc binding (Ty.ref bound) = do
  let (name, c₁) = fresh_name c
  let env₁ = insert_binding env loc (set_ty binding (Ty.strg_ref (Loc.abstract name)))
  (ty, c₂) ← Builder.unpack c₁ bound
  ok (insert_binding env₁ (Loc.abstract name) (Binding.weak bound ty), c₂)
unpack_loc env c loc binding _ = ok (env, c)

unfoldable pub unpack_locs : TypeEnv → Cursor → List Loc → Outcome (TypeEnv × Cursor)
unpack_locs env c [] = ok (env, c)
unpack_locs env c (loc ∷ locs) = do
  binding ← unwrap (find_loc env loc)
  (env₁, c₁) ← unpack_loc env c loc binding (binding_ty binding)
  unpack_locs env₁ c₁ locs

unfoldable pub unpack : TypeEnv → Cursor → Outcome (TypeEnv × Cursor)
unpack env c = unpack_locs env c (keys env)

-- What the entry in `other` makes of a binding.
abbrev pub weakened : Option Ty → Binding → Option Binding
weakened none binding = none
weakened (some Ty.uninit) binding = some (Binding.strong Ty.uninit)
weakened (some _) binding = some binding

abbrev pub retained : Loc → Option Binding → TypeEnv → TypeEnv
retained loc none env = env
retained loc (some binding) env = (loc, binding) ∷ env

unfoldable pub weakening : TypeEnv → TypeEnv → TypeEnv
weakening [] other = []
weakening ((loc, binding) ∷ env) other =
    retained loc (weakened (lookup_loc other loc) binding) (weakening env other)

module _ (variances_of : DefId → List Variance) where
  -- `cursor.subtyping(ty1, ty2)`, with enough fuel
  abbrev pub cursor_subtyping : Cursor → Ty → Ty → Outcome Cursor
  cursor_subtyping c ty1 ty2 = subtyping variances_of (suc (nesting ty1 + nesting ty2)) c ty1 ty2

  unfoldable pub update_binding : TypeEnv → Cursor → Loc → Ty → Binding → Outcome (TypeEnv × Cursor)
  update_binding env c loc new_ty (Binding.strong _) = ok (insert_loc env loc new_ty, c)
  update_binding env c loc new_ty (Binding.weak bound _) = do
    c₁ ← cursor_subtyping c new_ty bound
    ok (env, c₁)

  unfoldable pub update_loc : TypeEnv → Cursor → Loc → Ty → Outcome (TypeEnv × Cursor)
  update_loc env c loc new_ty = do
    binding ← unwrap (find_loc env loc)
    update_binding env c loc new_ty binding

  -- The arms of `write_place`, on the type that the place had.
  unfoldable pub write_loc : TypeEnv → Cursor → Loc → Ty → Ty → Outcome (TypeEnv × Cursor)
  write_loc env c loc new_ty (Ty.ref _) = panicked
  write_loc env c loc new_ty (Ty.exists _ _) = panicked
  write_loc env c loc new_ty _ = update_loc env c loc new_ty

  unfoldable pub write_place : TypeEnv → Cursor → Place → Ty → Outcome (TypeEnv × Cursor)
  write_place env c place new_ty = do
    (loc, ty) ← walk_place env place
    write_loc env c loc new_ty ty
