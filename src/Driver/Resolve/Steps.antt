-- ===== src/Driver/Resolve/Steps.antt =====
-- `run` of liquid-rust-driver/src/resolve.rs behind the insertion of type parameters: its five steps in
-- order.
use liquid_rust.Base.{
  ℕ, ◌+◌, ◌≤◌, ◌<◌, List, some, ◌≡◌, sym, subst, length, arith, ℕ_discrete, find,
}
use liquid_rust.Common.IndexGen.{word}
use liquid_rust.Common.Iter.{ErrorReported-semi_group, try_collect_exhaust}
use liquid_rust.Core.Ty as Core
use liquid_rust.Typeck.Ty.{Symbol}
use liquid_rust.Syntax as Ast
use liquid_rust.Driver.Hir as Hir
use liquid_rust.Driver.ScopeMap.{IsScopeMap}
use liquid_rust.Driver.Diagnostics.{Error, Run, drop, and_then}
use liquid_rust.Driver.Diagnostics as Diagnostics
use liquid_rust.Driver.Diagnostics.Honest.{Honest, settled, Honest-mono, Honest-both, Each}
use liquid_rust.Driver.Collect.{NameResTable}
use liquid_rust.Driver.Resolve.{Setting, Scope, resolve_ty}
use liquid_rust.Driver.Resolve.Closed.{TyClosed, RequireAt, Ensured, SignatureClosed}
use liquid_rust.Driver.Resolve.Ready.{Resolvable}
use liquid_rust.Driver.Resolve.Params.{Generics, resolve_generics-Honest}
use liquid_rust.Driver.Resolve.Locations.{
  within, Located, resolve_ty_at-Honest, resolve_requires-Honest, resolve_args_tys-Honest,
}
use liquid_rust.Driver.Resolve.Ensures.{resolve_ensures-Honest}
use liquid_rust.Driver.Resolve.Signature.{resolve_require, resolve_ensure, resolve_signature}

module _ {E T : Type 0} (c : Setting E T) (laws : IsScopeMap c.exprs)
    (small : c.max_index + 1 < word) (table : NameResTable) where
  abbrev Outputs : Type 0
  Outputs = List (Core.Name × Core.Ty) × Core.Ty

  -- The ensured types, then the result.
  ensures-Honest :
      (sig : Ast.FnSig) (n i : ℕ) (x : Scope E T) (reports : List Error)
      → n ≤ i
      → i + length sig.ensures ≤ c.max_index + 1
      → Located c table (within n i) x
      → Honest
          (λ _. Unit {0})
          (λ (o : Outputs). (last : ℕ) × Ensured n i o.0 last × TyClosed (within n last) o.1)
          reports
          (Diagnostics.both
            (λ ensures ret. (ensures, ret))
            (try_collect_exhaust (resolve_ensure c table) sig.ensures (x, settled reports))
            (λ s. resolve_ty c table sig.ret s))
  ensures-Honest sig n i x reports k h l =
      Honest-both _ (λ s. resolve_ty c table sig.ret s)
        (resolve_ensures-Honest c laws small table n sig.ensures i x reports k h l)
        (λ x' reports' l'.
          Honest-mono (resolve_ty_at-Honest c laws small table _ sig.ret x' reports' l') (λ _ _. tt)
            (λ _ q. q))
        (λ es ret p q. (_, p, q))

  -- The arguments before them.
  abbrev ArgsClosed : ℕ → ℕ → List Core.Ty × Outputs → Type 0
  ArgsClosed n i (args, (ensures, ret)) =
      (nargs : ℕ) × Each (λ _. TyClosed (within n i)) 0 args nargs
      × ((last : ℕ) × Ensured n i ensures last × TyClosed (within n last) ret)

  args-Honest :
      (sig : Ast.FnSig) (n i : ℕ) (x : Scope E T) (reports : List Error)
      → n ≤ i
      → i + length sig.ensures ≤ c.max_index + 1
      → Located c table (within n i) x
      → Honest
          (λ _. Unit {0})
          (ArgsClosed n i)
          reports
          (Diagnostics.both
            (λ args rest. (args, rest))
            (try_collect_exhaust (resolve_ty c table) sig.args (x, settled reports))
            (λ s.
              Diagnostics.both
                (λ ensures ret. (ensures, ret))
                (try_collect_exhaust (resolve_ensure c table) sig.ensures s)
                (λ s. resolve_ty c table sig.ret s)))
  args-Honest sig n i x reports k h l =
      Honest-both _
        (λ s.
          Diagnostics.both (λ ensures ret. (ensures, ret))
            (try_collect_exhaust (resolve_ensure c table) sig.ensures s)
            (λ s. resolve_ty c table sig.ret s))
        (resolve_args_tys-Honest c laws small table (within n i) sig.args x reports l)
        (λ x' reports' l'. ensures-Honest sig n i x' reports' k h l')
        (λ args (es, r) p q. (_, p, q))

  abbrev RequiresClosed : ℕ → ℕ → List (Core.Name × Core.Ty) × (List Core.Ty × Outputs) → Type 0
  RequiresClosed n i (requires, rest) = Each (RequireAt n) n requires i × ArgsClosed n i rest

  requires-Honest :
      (sig : Ast.FnSig) (n : ℕ) (x : Scope E T) (reports : List Error)
      → n + length sig.requires + length sig.ensures ≤ c.max_index + 1
      → Located c table (within n n) x
      → Honest
          (λ _. Unit {0})
          (RequiresClosed n (n + length sig.requires))
          reports
          (Diagnostics.both
            (λ requires rest. (requires, rest))
            (try_collect_exhaust (resolve_require c table) sig.requires (x, settled reports))
            (λ s.
              Diagnostics.both
                (λ args rest. (args, rest))
                (try_collect_exhaust (resolve_ty c table) sig.args s)
                (λ s.
                  Diagnostics.both
                    (λ ensures ret. (ensures, ret))
                    (try_collect_exhaust (resolve_ensure c table) sig.ensures s)
                    (λ s. resolve_ty c table sig.ret s))))
  requires-Honest sig n x reports h l =
      Honest-both _
        (λ s.
          Diagnostics.both (λ args rest. (args, rest))
            (try_collect_exhaust (resolve_ty c table) sig.args s)
            (λ s.
              Diagnostics.both (λ ensures ret. (ensures, ret))
                (try_collect_exhaust (resolve_ensure c table) sig.ensures s)
                (λ s. resolve_ty c table sig.ret s)))
        (resolve_requires-Honest c laws small table n sig.requires x reports (omega arith) l)
        (λ x' reports' l'.
          args-Honest sig n (n + length sig.requires) x' reports' (omega arith) (omega arith) l')
        (λ rs rest p q. (p, q))

  -- Behind the parameters no location is known yet.
  Located-Generics :
      {types : T} {n : ℕ} {x : Scope E T}
      → ((y : Symbol) (res : Hir.Res) → find ℕ_discrete table y ≡ some res → Resolvable c types res)
      → Generics c laws small types n x
      → Located c table (within n n) x
  unfolding find
  Located-Generics paths g = record {
    name_gen = g.name_gen;
    ready = record {
      vars = g.vars;
      regions = λ y m e.
          let e' = subst (λ regions. find ℕ_discrete regions y ≡ some m) g.regions e in absurd (cc);
      paths = λ y res e. subst (λ t. Resolvable c t res) (sym g.types_kept) (paths y res e);
    };
  }

  pub resolve_signature-Honest :
      (sig : Ast.FnSig) (types : T) (x : Scope E T) (reports : List Error)
      → length sig.generics + length sig.requires + length sig.ensures ≤ c.max_index + 1
      → ((y : Symbol) (res : Hir.Res) → find ℕ_discrete table y ≡ some res → Resolvable c types res)
      → Generics c laws small types 0 x
      → Honest
          (λ _. Unit {0})
          SignatureClosed
          reports
          (resolve_signature c table sig (x, settled reports))
  unfolding resolve_signature
  resolve_signature-Honest sig types x reports h paths g =
      Honest-both _ _
        (resolve_generics-Honest c laws small types sig.generics x reports (omega arith) g)
        (λ x' reports' g'.
          requires-Honest sig (length sig.generics) x' reports' h (Located-Generics paths g'))
        (λ ps (rs, (as', (es, ret))) p (r, (nargs, a, (last, e, t))).
          SignatureClosed.closed p r a e t)
