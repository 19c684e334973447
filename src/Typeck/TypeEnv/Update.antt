-- ===== src/Typeck/TypeEnv/Update.antt =====
-- What `update_loc` of liquid-rust-typeck/src/type_env.rs does to a strong and to a weak location.
use liquid_rust.Base.{
  ◌≡◌, ◌≢◌, refl, sym, subst, List, ok, unwrap, >>=-eq-ok, find-insert, find-insert_other, Option,
  none, some,
}
use liquid_rust.Typeck.Ty.{Loc, Ty, DefId, Loc-discrete}
use liquid_rust.Typeck.Ty.Meaning.{Structure, Env}
use liquid_rust.Typeck.Builder.{Cursor}
use liquid_rust.Typeck.Builder.Along.{Along}
use liquid_rust.Typeck.Builder.Subtyping.{Variance}
use liquid_rust.Typeck.Builder.Translate.Closed.{HoldsNode}
use liquid_rust.Typeck.Builder.Soundness.Relation.{TyClosed, Subtype}
use liquid_rust.Typeck.Builder.Soundness.{subtyping-Subtype}
use liquid_rust.Typeck.TypeEnv.{
  TypeEnv, Binding, find_loc, insert_loc, cursor_subtyping, update_binding, update_loc,
}

-- The bound of a weak binding has names below that of the cursor only.
abbrev pub BoundClosed : Cursor → Binding → Type 0
BoundClosed c (Binding.strong ty) = Unit
BoundClosed c (Binding.weak bound ty) = TyClosed c.name_gen bound

-- The location has the new type, and nothing else is different.
pub record Assigned (env : TypeEnv) (c : Cursor) (loc : Loc) (new_ty : Ty) (env' : TypeEnv)
    (c' : Cursor) : Type 1 where
  pub new : find_loc env' loc ≡ some (Binding.strong new_ty)
  pub others : (j : Loc) → loc ≢ j → find_loc env' j ≡ find_loc env j
  pub cursor : c' ≡ c

module _ (variances_of : DefId → List Variance) where
  -- A strong location gets the new type and no other location changes. A weak one stays as it is, and
  -- the new type has to be a subtype of its bound.
  abbrev pub Updated : TypeEnv → Cursor → Loc → Ty → Binding → TypeEnv → Cursor → Type 1
  Updated env c loc new_ty (Binding.strong _) env' c' = Assigned env c loc new_ty env' c'
  Updated env c loc new_ty (Binding.weak bound _) env' c' =
      (env' ≡ env)
      × ((M : Structure) (ν : M.Value) (ρ : Env M)
          → HoldsNode M ν ρ c'.root
          → Along M ν c.root c.node ρ (λ ρ'. Subtype variances_of M ν ρ' new_ty bound))

  update_binding-Updated :
      (env : TypeEnv) (c : Cursor) (loc : Loc) (new_ty : Ty) (binding : Binding) (env' : TypeEnv)
      (c' : Cursor)
      → TyClosed c.name_gen new_ty
      → BoundClosed c binding
      → update_binding variances_of env c loc new_ty binding ≡ ok (env', c')
      → Updated env c loc new_ty binding env' c'
  unfolding update_binding
  update_binding-Updated env c loc new_ty (Binding.strong ty) env' c' h1 h2 h =
      let new = Binding.strong new_ty in
      let same : insert_loc env loc new_ty ≡ env' = cc in
      let stays : c ≡ c' = cc in
      record {
        new = subst (λ e. find_loc e loc ≡ some new) same (find-insert Loc-discrete env loc new);
        others = λ j other.
            subst (λ e. find_loc e j ≡ find_loc env j) same
              (find-insert_other Loc-discrete env loc j new other);
        cursor = sym stays;
      }
  update_binding-Updated env c loc new_ty (Binding.weak bound ty) env' c' h1 h2 h =
      let (c₁, k1, k2) = >>=-eq-ok (cursor_subtyping variances_of c new_ty bound) _ h in
      let same : env ≡ env' = cc in
      let stays : c₁ ≡ c' = cc in
      (
        sym same,
        λ M ν ρ holds.
            subtyping-Subtype variances_of _ c new_ty bound c₁ h1 h2 k1 M ν ρ
              (subst (λ d. HoldsNode M ν ρ d.root) (sym stays) holds),
      )

found-ok : (o : Option Binding) (b : Binding) → unwrap o ≡ ok b → o ≡ some b
found-ok none b h = cc
found-ok (some x) b h = let r : x ≡ b = cc in subst (λ y. some x ≡ some y) r refl

-- Where an update gives an environment and a cursor, and the names of the new type and of the bound at
-- the location, if it is weak, were generated before, the location has a binding: a strong one gets the
-- new type, and nothing else changes, neither another location nor the cursor; a weak one leaves the
-- environment as it is, and a tree that holds afterwards makes the new type a subtype of the bound by
-- meaning at the place of the cursor.
pub update_loc-Updated :
    (variances_of : DefId → List Variance) (env : TypeEnv) (c : Cursor) (loc : Loc) (new_ty : Ty)
    (env' : TypeEnv) (c' : Cursor)
    → TyClosed c.name_gen new_ty
    → ((binding : Binding) → find_loc env loc ≡ some binding → BoundClosed c binding)
    → update_loc variances_of env c loc new_ty ≡ ok (env', c')
    → (binding : Binding) × (find_loc env loc ≡ some binding)
      × Updated variances_of env c loc new_ty binding env' c'
unfolding update_loc
update_loc-Updated variances_of env c loc new_ty env' c' h1 h2 h =
    let (binding, k1, k2) = >>=-eq-ok (unwrap (find_loc env loc)) _ h in
    let found = found-ok (find_loc env loc) binding k1 in
    (
      binding,
      found,
      update_binding-Updated variances_of env c loc new_ty binding env' c' h1 (h2 binding found) k2,
    )
