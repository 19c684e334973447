-- ===== src/Driver/Resolve/Locations.antt =====
-- The required and argument types of `run` of liquid-rust-driver/src/resolve.rs: locations get
-- names in order, and each part mentions those before it only.
use liquid_rust.Base.{
  ℕ, suc, ◌+◌, ◌≤◌, ◌<◌, List, some, ℕ_discrete, find, insert, find-insert, find-insert_other, ◌≡◌,
  refl, sym, ◌∙◌, subst, arith, length,
}
use liquid_rust.Common.IndexGen.{word}
use liquid_rust.Common.Iter.{ErrorReported-semi_group, try_collect_exhaust}
use liquid_rust.Core.Ty as Core
use liquid_rust.Typeck.Ty.{Symbol}
use liquid_rust.Syntax as Ast
use liquid_rust.Driver.ScopeMap.{IsScopeMap}
use liquid_rust.Driver.Subst.{insert_region}
use liquid_rust.Driver.Diagnostics.{Error}
use liquid_rust.Driver.Diagnostics.Honest.{
  Honest, fine, settled, Honest-mono, Honest-and_then, Each, Honest-collect,
}
use liquid_rust.Driver.Collect.{NameResTable}
use liquid_rust.Driver.Resolve.{Setting, Scope, resolve_ty}
use liquid_rust.Driver.Resolve.Closed.{Bounds, TyClosed, RequireAt}
use liquid_rust.Driver.Resolve.Ready.{Kept, Ready, Ready-Kept}
use liquid_rust.Driver.Resolve.Types.{resolve_ty-Honest}
use liquid_rust.Driver.Resolve.Signature.{named_ty, resolve_require}
use liquid_rust.Driver.Resolve.Params.{fresh_lem}

abbrev pub within : ℕ → ℕ → Bounds
within n hi = record { n = n; lo = n; hi = hi }

module _ {E T : Type 0} (c : Setting E T) (table : NameResTable) where
  -- The counter stands at the end of the names in bounds.
  pub record Located (b : Bounds) (x : Scope E T) : Type 0 where
    pub name_gen : x.name_gen ≡ b.hi
    pub ready : Ready c table b x

  pub Located-Kept : {b : Bounds} {x x' : Scope E T} → Located b x → Kept c x x' → Located b x'
  Located-Kept l k = record { name_gen = k.name_gen ∙ l.name_gen; ready = Ready-Kept c l.ready k }

  abbrev pub Same : Bounds → List (Symbol × Core.Name) → Scope E T → Type 0
  Same b known x = Located b x × (x.subst.regions ≡ known)

module _ {E T : Type 0} (c : Setting E T) (laws : IsScopeMap c.exprs)
    (small : c.max_index + 1 < word) (table : NameResTable) where
  pub resolve_ty_at-Honest :
      (b : Bounds) (ty : Ast.Ty) (x : Scope E T) (reports : List Error)
      → Located c table b x
      → Honest
          (Same c table b x.subst.regions)
          (TyClosed b)
          reports
          (resolve_ty c table ty (x, settled reports))
  resolve_ty_at-Honest b ty x reports l =
      Honest-mono (resolve_ty-Honest c laws b table ty x reports l.ready)
        (λ x' k. (Located-Kept c table l k, k.regions)) (λ _ q. q)

  pub named_ty-Honest :
      (b : Bounds) (name : Core.Name) (ty : Ast.Ty) (x : Scope E T) (reports : List Error)
      → Located c table b x
      → Honest
          (Same c table b x.subst.regions)
          (λ r. (r.0 ≡ name) × TyClosed b r.1)
          reports
          (named_ty c table name ty (x, settled reports))
  unfolding named_ty
  named_ty-Honest b name ty x reports l =
      Honest-and_then _ (resolve_ty_at-Honest b ty x reports l) (λ t x' i p. fine i (refl, p))
        (λ x' i. i)

  module _ (n i : ℕ) where
    -- The state once the region `y` has the fresh name `i`.
    abbrev declared : Symbol → Scope E T → Scope E T
    declared y x = record { name_gen = suc i; subst = insert_region c.exprs c.types y i x.subst }

    declared-Located :
        (y : Symbol) (x : Scope E T)
        → n ≤ i
        → Located c table (within n i) x
        → Located c table (within n (suc i)) (declared y x)
    declared-Located y x h l = record {
      name_gen = refl;
      ready = record {
        vars = l.ready.vars;
        regions = λ z m e. elim (ℕ_discrete y z) [
          | yes same ↦
              let found : find ℕ_discrete (insert ℕ_discrete x.subst.regions y i) z ≡ some i =
                subst (λ z. find ℕ_discrete (insert ℕ_discrete x.subst.regions y i) z ≡ some i) same
                  (find-insert ℕ_discrete x.subst.regions y i) in
              let is_new : i ≡ m = cc in (omega arith, omega arith)
          | no other ↦
              let (a, b) =
                l.ready.regions z m
                  (sym (find-insert_other ℕ_discrete x.subst.regions y z i other) ∙ e) in
              (a, omega arith)
        ];
        paths = l.ready.paths;
      };
    }

    pub resolve_require-Honest :
        (y : Ast.Ident) (ty : Ast.Ty) (x : Scope E T) (reports : List Error)
        → i ≤ c.max_index
        → n ≤ i
        → Located c table (within n i) x
        → Honest
            (Same c table (within n (suc i)) (insert ℕ_discrete x.subst.regions y i))
            (RequireAt n i)
            reports
            (resolve_require c table (y, ty) (x, settled reports))
    unfolding resolve_require
    resolve_require-Honest y ty x reports h k l =
        rw (l.name_gen, fresh_lem c.max_index i h (omega arith))
          (Honest-mono
            (named_ty-Honest (within n (suc i)) i ty (declared y x) reports
              (declared-Located y x k l))
            (λ _ q. q) (λ _ (e, p). record { name = e; ty = p }))

  pub resolve_requires-Honest :
      (n : ℕ) (requires : List (Ast.Ident × Ast.Ty)) (x : Scope E T) (reports : List Error)
      → n + length requires ≤ c.max_index + 1
      → Located c table (within n n) x
      → Honest
          (Located c table (within n (n + length requires)))
          (λ rs. Each (RequireAt n) n rs (n + length requires))
          reports
          (try_collect_exhaust (resolve_require c table) requires (x, settled reports))
  resolve_requires-Honest n requires x reports h l =
      Honest-mono
        (Honest-collect (resolve_require c table) (λ i x. Located c table (within n i) x × (n ≤ i))
          (RequireAt n) (n + length requires)
          (λ i (y, ty) x reports b (l, k).
            Honest-mono (resolve_require-Honest n i y ty x reports (omega arith) k l)
              (λ x' q. (q.0, omega arith)) (λ _ q. q))
          n requires x reports refl (l, omega arith))
        (λ _ q. q.0) (λ _ q. q)

  pub resolve_args_tys-Honest :
      (b : Bounds) (args : List Ast.Ty) (x : Scope E T) (reports : List Error)
      → Located c table b x
      → Honest
          (Located c table b)
          (λ ts. Each (λ _. TyClosed b) 0 ts (length args))
          reports
          (try_collect_exhaust (resolve_ty c table) args (x, settled reports))
  resolve_args_tys-Honest b args x reports l =
      Honest-collect (resolve_ty c table) (λ _. Located c table b) (λ _. TyClosed b) (length args)
        (λ i ty x reports _ l.
          Honest-mono (resolve_ty_at-Honest b ty x reports l) (λ x' q. q.0) (λ _ q. q))
        0 args x reports (omega arith) l
