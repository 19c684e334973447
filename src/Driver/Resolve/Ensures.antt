-- ===== src/Driver/Resolve/Ensures.antt =====
-- The ensured types of `run` of liquid-rust-driver/src/resolve.rs: each is that of a known location, or
-- introduces the next one.
use liquid_rust.Base.{
  ℕ, suc, ◌+◌, ◌≤◌, ◌<◌, List, [], ◌∷◌, none, some, Option-cases, ℕ_discrete, find, insert, ◌≡◌,
  refl, sym, subst, arith, inl, inr, length,
}
use liquid_rust.Common.IndexGen.{word}
use liquid_rust.Common.Iter.{ErrorReported-semi_group, try_collect_exhaust}
use liquid_rust.Core.Ty as Core
use liquid_rust.Typeck.Ty.{Symbol}
use liquid_rust.Syntax as Ast
use liquid_rust.Driver.ScopeMap.{IsScopeMap}
use liquid_rust.Driver.Diagnostics.{Error, value, both}
use liquid_rust.Driver.Diagnostics.Honest.{
  Honest, fine, settled, Honest-both, collect-nil, collect_cons,
}
use liquid_rust.Driver.Collect.{NameResTable}
use liquid_rust.Driver.Resolve.{Setting, Scope}
use liquid_rust.Driver.Resolve.Closed.{TyClosed, RequireAt, Ensured}
use liquid_rust.Driver.Resolve.Signature.{resolve_ensure}
use liquid_rust.Driver.Resolve.Locations.{
  within, Located, Same, named_ty-Honest, resolve_require-Honest,
}

-- The counter behind the ensured types: a region that is not known yet gets a fresh name.
unfoldable pub declare : List (Symbol × Core.Name) → ℕ → List (Ast.Ident × Ast.Ty) → ℕ
declare known count [] = count
declare known count ((y, _) ∷ es) = elim (find ℕ_discrete known y) [
  | some _ ↦ declare known count es
  | none ↦ declare (insert ℕ_discrete known y count) (suc count) es
]

declare-nil : (known : List (Symbol × Core.Name)) (count : ℕ) → declare known count [] ≡ count
unfolding declare
declare-nil known count = refl

module _ (known : List (Symbol × Core.Name)) (count : ℕ) (y : Symbol) (ty : Ast.Ty)
    (es : List (Ast.Ident × Ast.Ty)) where
  declare-known :
      {m : ℕ}
      → find ℕ_discrete known y ≡ some m
      → declare known count ((y, ty) ∷ es) ≡ declare known count es
  unfolding declare
  declare-known e = rw (e, declare) refl

  declare-new :
      find ℕ_discrete known y ≡ none
      → declare known count ((y, ty) ∷ es)
        ≡ declare (insert ℕ_discrete known y count) (suc count) es
  unfolding declare
  declare-new e = rw (e, declare) refl

module _ {E T : Type 0} (c : Setting E T) (laws : IsScopeMap c.exprs)
    (small : c.max_index + 1 < word) (table : NameResTable) where
  module _ (n i : ℕ) (y : Ast.Ident) (ty : Ast.Ty) (x : Scope E T) (reports : List Error) where
    resolve_ensure-known :
        {m : ℕ}
        → find ℕ_discrete x.subst.regions y ≡ some m
        → Located c table (within n i) x
        → Honest
            (Same c table (within n i) x.subst.regions)
            (λ r. (r.0 ≡ m) × TyClosed (within n i) r.1)
            reports
            (resolve_ensure c table (y, ty) (x, settled reports))
    unfolding resolve_ensure
    resolve_ensure-known {m} e l =
        rw (e, resolve_ensure) (named_ty-Honest c laws small table (within n i) m ty x reports l)

    resolve_ensure-new :
        find ℕ_discrete x.subst.regions y ≡ none
        → i ≤ c.max_index
        → n ≤ i
        → Located c table (within n i) x
        → Honest
            (Same c table (within n (suc i)) (insert ℕ_discrete x.subst.regions y i))
            (RequireAt n i)
            reports
            (resolve_ensure c table (y, ty) (x, settled reports))
    unfolding resolve_ensure
    resolve_ensure-new e h k l =
        rw (e, resolve_ensure) (resolve_require-Honest c laws small table n i y ty x reports h k l)

  pub resolve_ensures-Honest :
      (n : ℕ) (ensures : List (Ast.Ident × Ast.Ty)) (i : ℕ) (x : Scope E T) (reports : List Error)
      → n ≤ i
      → i + length ensures ≤ c.max_index + 1
      → Located c table (within n i) x
      → Honest
          (Located c table (within n (declare x.subst.regions i ensures)))
          (λ es. Ensured n i es (declare x.subst.regions i ensures))
          reports
          (try_collect_exhaust (resolve_ensure c table) ensures (x, settled reports))
  resolve_ensures-Honest n [] i x reports k h l =
      rw (collect-nil (resolve_ensure c table) (x, settled reports)) (
        subst
          (λ last.
            Honest (Located c table (within n last)) (λ es. Ensured n i es last) reports
              (value [] (x, settled reports)))
          (sym (declare-nil x.subst.regions i)) (fine l Ensured.done))
  resolve_ensures-Honest n ((y, ty) ∷ es) i x reports k h l =
      let rest : (known : List (Symbol × Core.Name)) (j : ℕ) (x' : Scope E T) (reports : List Error)
          → n ≤ j
          → j ≤ suc i
          → Same c table (within n j) known x'
          → Honest (Located c table (within n (declare known j es)))
              (λ ts. Ensured n j ts (declare known j es)) reports
              (try_collect_exhaust (resolve_ensure c table) es (x', settled reports)) =
        λ known j x' reports a b (l', e).
          subst
            (λ known.
              Honest (Located c table (within n (declare known j es)))
                (λ ts. Ensured n j ts (declare known j es)) reports
                (try_collect_exhaust (resolve_ensure c table) es (x', settled reports)))
            e (resolve_ensures-Honest n es j x' reports a (omega arith) l') in
      let goal = λ (last : ℕ).
        Honest (Located c table (within n last)) (λ ts. Ensured n i ts last) reports
          (both (λ t ts. t ∷ ts) (resolve_ensure c table (y, ty) (x, settled reports))
            (λ s. try_collect_exhaust (resolve_ensure c table) es s)) in
      rw (collect_cons (resolve_ensure c table) (y, ty) es (x, settled reports))
        (elim (Option-cases (find ℕ_discrete x.subst.regions y)) [
          | inr (m, e) ↦ subst goal (sym (declare-known x.subst.regions i y ty es e)) (
              Honest-both (λ t ts. t ∷ ts) (λ s. try_collect_exhaust (resolve_ensure c table) es s)
                (resolve_ensure-known n i y ty x reports e l)
                (λ x' reports' same. rest x.subst.regions i x' reports' k (omega arith) same)
                (λ (m', t) ts (e', p) q.
                  let (a, b) = l.ready.regions y m e in Ensured.known (rw e' a) (rw e' b) p q))
          | inl e ↦ subst goal (sym (declare-new x.subst.regions i y ty es e)) (
              Honest-both (λ t ts. t ∷ ts) (λ s. try_collect_exhaust (resolve_ensure c table) es s)
                (resolve_ensure-new n i y ty x reports e (omega arith) k l)
                (λ x' reports' same.
                  rest (insert ℕ_discrete x.subst.regions y i) (suc i) x' reports' (omega arith)
                    (omega arith) same)
                (λ t ts p q. fresh_Ensured t ts p q))
        ])
    where
      fresh_Ensured :
          {n i last : ℕ} (t : Core.Name × Core.Ty) (ts : List (Core.Name × Core.Ty))
          → RequireAt n i t
          → Ensured n (suc i) ts last
          → Ensured n i (t ∷ ts) last
      fresh_Ensured {n} {i} {last} (m, ty) ts p q =
          subst (λ m. Ensured n i ((m, ty) ∷ ts) last) (sym p.name) (Ensured.fresh p.ty q)
