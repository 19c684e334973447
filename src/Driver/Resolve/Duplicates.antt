-- ===== src/Driver/Resolve/Duplicates.antt =====
-- `resolve_generics` of liquid-rust-driver/src/resolve.rs refuses two parameters of one name.
use liquid_rust.Base.{
  ℕ, false, Bool-cases, List, [], ◌∷◌, map, Option, none, some, ◌≡◌, ◌≢◌, refl, sym, ap, ◌∙◌, subst,
  inl, inr, All, ◌⊎◌, ◌==◌,
}
use liquid_rust.Common.IndexGen.{fresh}
use liquid_rust.Common.Iter.{ErrorReported-semi_group, try_collect_exhaust}
use liquid_rust.Fixpoint.Constraint.{Sort}
use liquid_rust.Core.Ty as Core
use liquid_rust.Typeck.Ty.{Symbol}
use liquid_rust.Syntax as Ast
use liquid_rust.Driver.ScopeMap.{IsScopeMap}
use liquid_rust.Driver.Subst.{Subst, insert_expr}
use liquid_rust.Driver.Diagnostics.{Diagnostics, unresolved_sort, duplicate_generic_param}
use liquid_rust.Driver.Diagnostics.Honest.{collect_cons}
use liquid_rust.Driver.Diagnostics.Inversion.{Gives, Gives-value, reject_inv, both_inv}
use liquid_rust.Driver.Resolve.{Setting, Scope, State, resolve_sort}
use liquid_rust.Driver.Resolve.Judged.{resolve_expr_inv}
use liquid_rust.Driver.Resolve.TypeParams.{Distinct}
use liquid_rust.Driver.Resolve.Signature.{
  fresh_then, resolve_param_pred, new_param, resolve_param, resolve_generics,
}

fresh_then_inv {ℓ} :
    {A : Type ℓ} (o : Option ℕ × ℕ) (k : ℕ → ℕ → Option A) {a : A}
    → fresh_then o k ≡ some a
    → (name : ℕ) × (count : ℕ) × (o ≡ (some name, count)) × (k name count ≡ some a)
fresh_then_inv (none, _) k h = absurd (cc)
fresh_then_inv (some name, count) k h = (name, count, refl, h)

module _ {E T : Type 0} (c : Setting E T) where
  resolve_sort_inv :
      (sort : Ast.Ident) (s : State c) {t : Sort} {s' : State c}
      → Gives (resolve_sort c sort s) t s'
      → s ≡ s'
  resolve_sort_inv sort s h = elim (Bool-cases (sort == c.int_symbol)) [
    | inl e ↦ (Gives-value (rw (e, resolve_sort) at h)).1
    | inr e ↦ elim (Bool-cases (sort == c.bool_symbol)) [
      | inl e' ↦ (Gives-value (rw (e, e', resolve_sort) at h)).1
      | inr e' ↦ elim (reject_inv (unresolved_sort sort) s (rw (e, e', resolve_sort) at h)) [ ]
    ]
  ]

  resolve_param_pred_inv :
      (pred : Option Ast.Expr) (x : Scope E T) (d : Diagnostics) {e : Core.Expr} {s : State c}
      → Gives (resolve_param_pred c pred (x, d)) e s
      → s ≡ (x, d)
  unfolding resolve_param_pred
  resolve_param_pred_inv none x d h = sym ((Gives-value h).1)
  resolve_param_pred_inv (some e) x d h = (resolve_expr_inv c x e d h).1

  module _ (laws : IsScopeMap c.exprs) where
    abbrev inserted : Symbol → Core.Var → Subst E T → Subst E T
    inserted y v s = record s { exprs = c.exprs.define s.exprs y v }

    insert_expr_cases :
        (y : Symbol) (v : Core.Var) (s : Subst E T)
        → ((c.exprs.contains_key_at_top s.exprs y ≡ false)
            × (insert_expr c.exprs c.types y v s ≡ (none, inserted y v s)))
          ⊎ ((old : Core.Var) × (insert_expr c.exprs c.types y v s ≡ (some old, s)))
    insert_expr_cases y v s = elim (Bool-cases (c.exprs.contains_key_at_top s.exprs y)) [
      | inl e ↦
          let (old, found) = laws.get_at_top s.exprs y e in
          inr (old, rw (e, insert_expr) (ap (λ o. (o, s)) found))
      | inr e ↦ inl (e, rw (e, insert_expr) refl)
    ]

    new_param_inv :
        (param : Ast.GenericParam) (name : ℕ) (x : Scope E T) (d : Diagnostics) {p : Core.Param}
        {s : State c}
        → Gives (new_param c param name none (x, d)) p s
        → s ≡ (x, d)
    unfolding new_param
    new_param_inv param name x d {s = s'} h =
        let (sort, pred, s, g, k, _) =
          both_inv (λ sort pred. record { name = name; sort = sort; pred = pred })
            (resolve_sort c param.sort (x, d)) (λ s. resolve_param_pred c param.pred s) h in
        resolve_param_pred_inv param.pred x d (
          subst (λ s. Gives (resolve_param_pred c param.pred s) pred s')
            (sym (resolve_sort_inv param.sort (x, d) g)) k)

    duplicate_inv :
        (param : Ast.GenericParam) (name : ℕ) (old : Core.Var) (subst : Subst E T) (count : ℕ)
        (d : Diagnostics) {p : Core.Param} {s : State c}
        → ¬ Gives
            (new_param c param name (some old) (record { name_gen = count; subst = subst }, d))
            p
            s
    unfolding new_param
    duplicate_inv param name old subst count d =
        λ h. reject_inv (duplicate_generic_param param.name) _ h

    -- A parameter that is resolved was not in the layer, and now is.
    resolve_param_inv :
        (param : Ast.GenericParam) (x : Scope E T) (d : Diagnostics) {p : Core.Param} {s : State c}
        → Gives (resolve_param c param (x, d)) p s
        → (c.exprs.contains_key_at_top x.subst.exprs param.name ≡ false)
          × ((v : Core.Var) × (s.0.subst.exprs ≡ c.exprs.define x.subst.exprs param.name v))
    unfolding resolve_param
    resolve_param_inv param x d {p} {s} h =
        let (name, count, e, h') = fresh_then_inv (fresh c.max_index x.name_gen) _ h in
        let goes = λ (o : Option Core.Var × Subst E T).
          Gives (new_param c param name o.0 (record { name_gen = count; subst = o.1 }, d)) p s in
        elim (insert_expr_cases param.name (Core.Var.free name) x.subst) [
          | inr (old, e') ↦
              elim (duplicate_inv param name old x.subst count d (subst goes e' h')) [ ]
          | inl (free, e') ↦ (
            free,
            (
              Core.Var.free name,
              ap (λ (s : State c). s.0.subst.exprs)
                  (new_param_inv param name _ d (subst goes e' h')),
            ),
          )
        ]

    -- Every parameter behind is new to the layer.
    Absent : E → List Ast.GenericParam → Type 0
    Absent m params =
        All (λ (p : Ast.GenericParam). c.exprs.contains_key_at_top m p.name ≡ false) params

    defined-Absent :
        (m : E) (y : Symbol) (v : Core.Var) (params : List Ast.GenericParam)
        → Absent (c.exprs.define m y v) params
        → All (λ k. y ≢ k) (map (λ (p : Ast.GenericParam). p.name) params) × Absent m params
    unfolding Absent
    defined-Absent m y v [] h = (tt, tt)
    defined-Absent m y v (p ∷ ps) (h, hs) =
        let (n, a) = defined-Absent m y v ps hs in
        let differs : y ≢ p.name = λ e.
          let at_top = laws.at_top_define m y v in
          let clash =
            subst (λ k. c.exprs.contains_key_at_top (c.exprs.define m y v) k ≡ false) (sym e) h in
          cc in
        ((differs, n), (sym (laws.at_top_define_other m y p.name v differs) ∙ h, a))

    generics_inv :
        (params : List Ast.GenericParam) (x : Scope E T) (d : Diagnostics) {ps : List Core.Param}
        {s : State c}
        → Gives (try_collect_exhaust (resolve_param c) params (x, d)) ps s
        → Distinct (map (λ (p : Ast.GenericParam). p.name) params) × Absent x.subst.exprs params
    unfolding Absent
    generics_inv [] x d h = (tt, tt)
    generics_inv (p ∷ params) x d {s = s'} h =
        let (t, ts, s, g, k, _) =
          both_inv (λ t ts. t ∷ ts) (resolve_param c p (x, d))
            (λ s. try_collect_exhaust (resolve_param c) params s)
            (sym (collect_cons (resolve_param c) p params (x, d)) ∙ h) in
        let (free, (v, e)) = resolve_param_inv p x d g in
        let (distinct, absent) = generics_inv params s.0 s.1 k in
        let (differ, absent') =
          defined-Absent x.subst.exprs p.name v params (subst (λ m. Absent m params) e absent) in
        ((differ, distinct), (free, absent'))

-- Whatever the state, `resolve_generics` gives parameters only if their names in the source are pairwise different, and
-- none of them stands for something in the layer already.
pub resolve_generics-Distinct :
    {E T : Type 0} (c : Setting E T) (params : List Ast.GenericParam) (x : Scope E T)
    (d : Diagnostics) {ps : List Core.Param} {s : State c}
    → IsScopeMap c.exprs
    → Gives (resolve_generics c params (x, d)) ps s
    → Distinct (map (λ (p : Ast.GenericParam). p.name) params)
      × All
          (λ (p : Ast.GenericParam). c.exprs.contains_key_at_top x.subst.exprs p.name ≡ false)
          params
unfolding resolve_generics Absent
resolve_generics-Distinct c params x d laws h = generics_inv c laws params x d h
