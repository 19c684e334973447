-- ===== src/Typeck/TypeEnv/Unpacked.antt =====
-- `unpack` of liquid-rust-typeck/src/type_env.rs leaves no existential type.
use liquid_rust.Base.{
  ◌≡◌, refl, sym, ap, ◌∙◌, subst, List, [], ◌∷◌, Option, none, some, Outcome, ok, unwrap, find,
  find-insert, find-insert_other, inl, inr, ◌⊎◌, >>=-eq-ok, keys,
}
use mathlib.Core.Logic.{ite}
use liquid_rust.Typeck.Ty.{Expr, Var, Loc, Ty, Loc-discrete, base_sort, subst_pred}
use liquid_rust.Typeck.Builder as Builder
use liquid_rust.Typeck.Builder.{Cursor, fresh_name, push_forall}
use liquid_rust.Typeck.TypeEnv.{
  TypeEnv, Binding, binding_ty, set_ty, find_loc, insert_binding, unpack_loc, unpack_locs, unpack,
}

-- No existential type
abbrev pub IsUnpacked : Ty → Type 0
IsUnpacked (Ty.exists _ _) = ⊥
IsUnpacked _ = Unit

abbrev IsIn : Loc → List Loc → Type 0
IsIn j [] = ⊥
IsIn j (loc ∷ locs) = (loc ≡ j) ⊎ IsIn j locs

-- Every binding is unpacked, but for those of the locations still to be visited.
abbrev UnpackedBut : List Loc → TypeEnv → Type 0
UnpackedBut locs env =
    (j : Loc) (binding : Binding)
    → find_loc env j ≡ some binding
    → IsUnpacked (binding_ty binding) ⊎ IsIn j locs

some-eq : {x y : Binding} → some x ≡ some y → x ≡ y
some-eq h = cc

insert-UnpackedBut :
    (locs : List Loc) (env : TypeEnv) (loc : Loc) (binding : Binding)
    → UnpackedBut (loc ∷ locs) env
    → IsUnpacked (binding_ty binding)
    → UnpackedBut locs (insert_binding env loc binding)
insert-UnpackedBut locs env loc binding h u j b e = elim (Loc-discrete loc j) [
  | yes same ↦
      let found : find_loc (insert_binding env loc binding) loc ≡ some b =
        subst (λ k. find_loc (insert_binding env loc binding) k ≡ some b) (sym same) e in
      inl (
        subst (λ x. IsUnpacked (binding_ty x))
          (some-eq (sym (find-insert Loc-discrete env loc binding) ∙ found)) u)
  | no other ↦ elim (h j b (sym (find-insert_other Loc-discrete env loc j binding other) ∙ e)) [
    | inl v ↦ inl v
    | inr (inl same) ↦ absurd (other same)
    | inr (inr i) ↦ inr i
  ]
]

weaken-UnpackedBut :
    (loc : Loc) (locs : List Loc) (env : TypeEnv)
    → UnpackedBut locs env
    → UnpackedBut (loc ∷ locs) env
weaken-UnpackedBut loc locs env h j b e = elim (h j b e) [ inl v ↦ inl v | inr i ↦ inr (inr i) ]

set_ty-IsUnpacked :
    (binding : Binding) (ty : Ty) → IsUnpacked ty → IsUnpacked (binding_ty (set_ty binding ty))
set_ty-IsUnpacked (Binding.strong _) ty u = u
set_ty-IsUnpacked (Binding.weak _ _) ty u = u

-- What a cursor unpacks is not existential.
unpack-IsUnpacked :
    (c : Cursor) (ty ty' : Ty) (c' : Cursor) → Builder.unpack c ty ≡ ok (ty', c') → IsUnpacked ty'
unfolding Builder.unpack fresh_name
unpack-IsUnpacked c (Ty.exists bty p) ty' c' h =
    let x = Expr.var (Var.free c.name_gen) in
    let pushed = push_forall (fresh_name c).1 c.name_gen (base_sort bty) (subst_pred p x) in
    let (c₁, h1, h2) = >>=-eq-ok pushed (λ c₂. ok (Ty.refine bty x, c₂)) h in
    let same : Ty.refine bty x ≡ ty' = cc in subst IsUnpacked same tt
unpack-IsUnpacked c (Ty.refine b e) ty' c' h =
    let r : Ty.refine b e ≡ ty' = cc in subst IsUnpacked r tt
unpack-IsUnpacked c Ty.uninit ty' c' h = let r : Ty.uninit ≡ ty' = cc in subst IsUnpacked r tt
unpack-IsUnpacked c (Ty.strg_ref l) ty' c' h =
    let r : Ty.strg_ref l ≡ ty' = cc in subst IsUnpacked r tt
unpack-IsUnpacked c (Ty.ref t) ty' c' h = let r : Ty.ref t ≡ ty' = cc in subst IsUnpacked r tt
unpack-IsUnpacked c (Ty.param p) ty' c' h = let r : Ty.param p ≡ ty' = cc in subst IsUnpacked r tt

-- A location whose type is left as it is
visited-UnpackedBut :
    (locs : List Loc) (env : TypeEnv) (loc : Loc) (binding : Binding)
    → UnpackedBut (loc ∷ locs) env
    → find_loc env loc ≡ some binding
    → IsUnpacked (binding_ty binding)
    → UnpackedBut locs env
visited-UnpackedBut locs env loc binding h found u j b e = elim (h j b e) [
  | inl v ↦ inl v
  | inr (inl same) ↦ inl (
      subst (λ x. IsUnpacked (binding_ty x))
        (some-eq (sym found ∙ subst (λ k. find_loc env k ≡ some b) (sym same) e)) u)
  | inr (inr i) ↦ inr i
]

env-eq :
    {x y : TypeEnv} {c d : Cursor}
    → ◌≡◌ {A = Outcome (TypeEnv × Cursor)} (ok (x, c)) (ok (y, d))
    → x ≡ y
env-eq h = cc

unpack_loc-UnpackedBut :
    (locs : List Loc) (env : TypeEnv) (c : Cursor) (loc : Loc) (binding : Binding) (ty : Ty)
    (env' : TypeEnv) (c' : Cursor)
    → UnpackedBut (loc ∷ locs) env
    → find_loc env loc ≡ some binding
    → ty ≡ binding_ty binding
    → unpack_loc env c loc binding ty ≡ ok (env', c')
    → UnpackedBut locs env'
unfolding unpack_loc
unpack_loc-UnpackedBut locs env c loc binding (Ty.exists bty p) env' c' h found same e =
    let ((ty, c₁), e1, e2) = >>=-eq-ok (Builder.unpack c (Ty.exists bty p)) _ e in
    let u = unpack-IsUnpacked c (Ty.exists bty p) ty c₁ e1 in
    subst (UnpackedBut locs) (env-eq e2)
      (insert-UnpackedBut locs env loc (set_ty binding ty) h (set_ty-IsUnpacked binding ty u))
unpack_loc-UnpackedBut locs env c loc binding (Ty.ref bound) env' c' h found same e =
    let fresh = Loc.abstract (fresh_name c).0 in
    let ((ty, c₁), e1, e2) = >>=-eq-ok (Builder.unpack (fresh_name c).1 bound) _ e in
    let u = unpack-IsUnpacked (fresh_name c).1 bound ty c₁ e1 in
    let env₁ = insert_binding env loc (set_ty binding (Ty.strg_ref fresh)) in
    let first =
      insert-UnpackedBut locs env loc (set_ty binding (Ty.strg_ref fresh)) h
        (set_ty-IsUnpacked binding (Ty.strg_ref fresh) tt) in
    subst (UnpackedBut locs) (env-eq e2) (
      insert-UnpackedBut locs env₁ fresh (Binding.weak bound ty)
        (weaken-UnpackedBut fresh locs env₁ first) u)
unpack_loc-UnpackedBut locs env c loc binding (Ty.refine b i) env' c' h found same e =
    subst (UnpackedBut locs) (env-eq e)
      (visited-UnpackedBut locs env loc binding h found (subst IsUnpacked same tt))
unpack_loc-UnpackedBut locs env c loc binding Ty.uninit env' c' h found same e =
    subst (UnpackedBut locs) (env-eq e)
      (visited-UnpackedBut locs env loc binding h found (subst IsUnpacked same tt))
unpack_loc-UnpackedBut locs env c loc binding (Ty.strg_ref l) env' c' h found same e =
    subst (UnpackedBut locs) (env-eq e)
      (visited-UnpackedBut locs env loc binding h found (subst IsUnpacked same tt))
unpack_loc-UnpackedBut locs env c loc binding (Ty.param p) env' c' h found same e =
    subst (UnpackedBut locs) (env-eq e)
      (visited-UnpackedBut locs env loc binding h found (subst IsUnpacked same tt))

unwrap-some : (o : Option Binding) (b : Binding) → unwrap o ≡ ok b → o ≡ some b
unwrap-some none b h = cc
unwrap-some (some x) b h = let r : x ≡ b = cc in ap some r

unpack_locs-UnpackedBut :
    (env : TypeEnv) (c : Cursor) (locs : List Loc) (env' : TypeEnv) (c' : Cursor)
    → UnpackedBut locs env
    → unpack_locs env c locs ≡ ok (env', c')
    → UnpackedBut [] env'
unfolding unpack_locs
unpack_locs-UnpackedBut env c [] env' c' h e = subst (UnpackedBut []) (env-eq e) h
unpack_locs-UnpackedBut env c (loc ∷ locs) env' c' h e =
    let (binding, e1, e2) = >>=-eq-ok (unwrap (find_loc env loc)) _ e in
    let ((env₁, c₁), e3, e4) = >>=-eq-ok (unpack_loc env c loc binding (binding_ty binding)) _ e2 in
    unpack_locs-UnpackedBut env₁ c₁ locs env' c'
      (unpack_loc-UnpackedBut locs env c loc binding (binding_ty binding) env₁ c₁ h
        (unwrap-some (find_loc env loc) binding e1) refl e3)
      e4

find-IsIn : (env : TypeEnv) (j : Loc) (b : Binding) → find_loc env j ≡ some b → IsIn j (keys env)
unfolding find
find-IsIn [] j b h = cc
find-IsIn ((loc, binding) ∷ env) j b h =
    elim (Loc-discrete loc j)
        as (λ d. ite d (some binding) (find_loc env j) ≡ some b → (loc ≡ j) ⊎ IsIn j (keys env)) [
          | yes same ↦ λ _. inl same
          | no _ ↦ λ k. inr (find-IsIn env j b k)
        ]
      h

-- Where an environment can be unpacked, no binding of the result has an existential type, neither of
-- the locations that it had nor of the fresh ones for its references.
pub unpack-Unpacked :
    (env : TypeEnv) (c : Cursor) (env' : TypeEnv) (c' : Cursor) (loc : Loc) (binding : Binding)
    → unpack env c ≡ ok (env', c')
    → find_loc env' loc ≡ some binding
    → IsUnpacked (binding_ty binding)
unfolding unpack
unpack-Unpacked env c env' c' loc binding h found =
    elim (unpack_locs-UnpackedBut env c (keys env) env' c' (λ j b e. inr (find-IsIn env j b e)) h
      loc binding found) [ inl u ↦ u | inr i ↦ elim i [ ] ]
