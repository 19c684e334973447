-- ===== src/Driver/Resolve/Total.antt =====
-- `Resolver::resolve` of liquid-rust-driver/src/resolve.rs as a whole, and with the sort check behind it.
use liquid_rust.Base.{
  ◌+◌, ◌≤◌, ◌<◌, List, [], ◌∷◌, Option, none, some, ◌≡◌, refl, subst, ◌⊎◌, length, find,
}
use liquid_rust.Base.{NoPanic}
use liquid_rust.Core.Ty as Core
use liquid_rust.Core.Wf.{check_fn_sig}
use liquid_rust.Driver.Resolve.Checked.{check_fn_sig-NoPanic}
use liquid_rust.Common.IndexGen.{word}
use liquid_rust.Common.Iter.{
  ErrorReported-semi_group, Result, ok, err, ErrorReported, error_reported,
}
use liquid_rust.Typeck.Ty.{DefId}
use liquid_rust.Syntax as Ast
use liquid_rust.Driver.Hir as Hir
use liquid_rust.Driver.ScopeMap.{IsScopeMap}
use liquid_rust.Driver.Subst.{Subst}
use liquid_rust.Driver.Diagnostics.{Error, Diagnostics, Run, drop, and_then}
use liquid_rust.Driver.Diagnostics.Honest.{Honest, fine, failed, settled, Honest-and_then}
use liquid_rust.Driver.Collect.{NameResTable, collect_res}
use liquid_rust.Driver.Collect.Good.{
  GoodTy, GoodSig, GoodTable, collect_res_ty-Honest, collect_res-Honest,
}
use liquid_rust.Driver.Resolve.{Setting}
use liquid_rust.Driver.Resolve.Closed.{SignatureClosed}
use liquid_rust.Driver.Resolve.Ready.{Resolvable}
use liquid_rust.Driver.Resolve.TypeParams.{Member, Distinct, dids, parent_dids, insert_types-Known}
use liquid_rust.Driver.Resolve.Signature.{run, collect_parent, resolve, resolve_behind}
use liquid_rust.Driver.Resolve.Steps.{resolve_signature-Honest}

-- What rustc promises of a signature: the type parameters of a layer are different, and a name in its types
-- stands for a type, a type parameter only for one of the function or its parent.
abbrev pub Names : Option Hir.Impl → List Hir.GenericParam → Hir.Res → Type 0
Names parent generics (Hir.Res.ty_param did) =
    Member did (parent_dids parent) ⊎ Member did (dids generics)
Names parent generics Hir.Res.other = ⊥
Names parent generics _ = Unit

abbrev GoodParent : (Hir.Res → Type 0) → Option Hir.Impl → Type 0
GoodParent G none = Unit
GoodParent G (some parent) = GoodTy G parent.self_ty

pub record Compiled (parent : Option Hir.Impl) (generics : List Hir.GenericParam)
    (hir_sig : Hir.FnSig) : Type 0 where
  pub parent_distinct : Distinct (parent_dids parent)
  pub distinct : Distinct (dids generics)
  pub self_ty : GoodParent (Names parent generics) parent
  pub sig : GoodSig (Names parent generics) hir_sig

-- The result of `resolve`: a value and nothing emitted, or an error and at least one report.
pub data Reports {T : Type 0} (P : T → Type 0)
    : Option (Result T ErrorReported × List Error) → Type 0 where
  accepted : {t : T} → P t → Reports P (some (ok t, []))
  rejected : (e : Error) (es : List Error) → Reports P (some (err error_reported, e ∷ es))

drop-Reports :
    {X T : Type 0} {I : X → Type 0} {P : T → Type 0} {m : Run X T}
    → Honest I P [] m
    → Reports P (drop m)
drop-Reports (fine i p) = Reports.accepted p
drop-Reports (failed e es i) = Reports.rejected e es

module _ {E T : Type 0} (c : Setting E T) (laws : IsScopeMap c.exprs)
    (types_laws : IsScopeMap c.types) (small : c.max_index + 1 < word) (parent : Option Hir.Impl)
    (generics : List Hir.GenericParam) where
  run-Honest :
      (table : NameResTable) (sig : Ast.FnSig)
      → Distinct (parent_dids parent)
      → Distinct (dids generics)
      → GoodTable (Names parent generics) table
      → length sig.generics + length sig.requires + length sig.ensures ≤ c.max_index + 1
      → Honest (λ _. Unit {0}) SignatureClosed [] (run c table parent generics sig (settled []))
  unfolding run
  run-Honest table sig dp dg good h =
      let (s, s', e, e', exprs, regions, known) =
        insert_types-Known c types_laws parent generics dp dg in
      rw (e, e')
        (resolve_signature-Honest c laws small table sig s'.types _ [] h
          (λ y res found. resolvable s' known res (good y res found))
          (record {
            name_gen = refl;
            vars = λ y v read.
                let none_yet = laws.get_new y in
                let found : c.exprs.get c.exprs.new y ≡ some v =
                  subst (λ m. c.exprs.get m y ≡ some v) exprs read in
                absurd (cc);
            regions = regions;
            types_kept = refl;
          }))
    where
      resolvable :
          (s : Subst E T)
          → ((did : DefId)
              → Member did (parent_dids parent) ⊎ Member did (dids generics)
              → Resolvable c s.types (Hir.Res.ty_param did))
          → (res : Hir.Res) → Names parent generics res
          → Resolvable c s.types res
      resolvable s known (Hir.Res.ty_param did) h = known did h
      resolvable s known Hir.Res.other h = h
      resolvable s known res h = tt

none_found : (G : Hir.Res → Type 0) → GoodTable G []
unfolding find
none_found G y res e = absurd (cc)

collect_parent-Honest :
    (G : Hir.Res → Type 0) (parent : Option Hir.Impl)
    → GoodParent G parent
    → Honest (GoodTable G) (λ _. Unit {0}) [] (collect_parent parent ([], settled []))
unfolding collect_parent
collect_parent-Honest G none g = fine (none_found G) tt
collect_parent-Honest G (some parent) g = collect_res_ty-Honest G g [] [] (none_found G)

collect-Honest :
    (parent : Option Hir.Impl) (generics : List Hir.GenericParam) (hir_sig : Hir.FnSig)
    → Compiled parent generics hir_sig
    → Honest
        (GoodTable (Names parent generics))
        (λ _. Unit {0})
        []
        (and_then (collect_parent parent ([], settled [])) (λ _ s. collect_res hir_sig s))
collect-Honest parent generics hir_sig k =
    Honest-and_then _ (collect_parent-Honest (Names parent generics) parent k.self_ty)
      (λ _ table good _. collect_res-Honest (Names parent generics) hir_sig table [] k.sig good)
      (λ _ good. good)

resolve_behind-Reports :
    {X T : Type 0} {G : NameResTable → Type 0} {I : X → Type 0} {P : T → Type 0}
    {m : Run NameResTable (Unit {0})} (k : NameResTable → Diagnostics → Run X T)
    → Honest G (λ _. Unit {0}) [] m
    → ((table : NameResTable) → G table → Honest I P [] (k table (settled [])))
    → Reports P (resolve_behind m k)
resolve_behind-Reports k (fine {x} g _) h = drop-Reports (h x g)
resolve_behind-Reports k (failed e es _) h = Reports.rejected e es

-- On a signature that rustc has compiled, with no more names than `Name` has indices, `resolve` does
-- not panic, the assertion at the drop of the diagnostics included. Either it emits no error and gives
-- a signature whose names are 0, 1, 2, ... in the order of their introduction, in which every part
-- mentions names introduced before it only; or it returns an error, and has emitted at least one.
pub resolve-Reports :
    {E T : Type 0} (c : Setting E T) (parent : Option Hir.Impl) (generics : List Hir.GenericParam)
    (hir_sig : Hir.FnSig) (sig : Ast.FnSig)
    → IsScopeMap c.exprs
    → IsScopeMap c.types
    → c.max_index + 1 < word
    → Compiled parent generics hir_sig
    → length sig.generics + length sig.requires + length sig.ensures ≤ c.max_index + 1
    → Reports SignatureClosed (resolve c parent generics hir_sig sig)
unfolding resolve
resolve-Reports c parent generics hir_sig sig laws types_laws small k h =
    resolve_behind-Reports (λ table d. run c table parent generics sig d)
      (collect-Honest parent generics hir_sig k)
      (λ table good.
        run-Honest c laws types_laws small parent generics table sig k.parent_distinct k.distinct
          good h)

Reports_inv :
    {T : Type 0} {P : T → Type 0} {o : Option (Result T ErrorReported × List Error)} {t : T}
    {reports : List Error}
    → Reports P o
    → o ≡ some (ok t, reports)
    → P t
Reports_inv {P} (Reports.accepted {t} p) e = subst P (cc) p
Reports_inv (Reports.rejected _ _) e = absurd (cc)

-- On a signature that rustc has compiled, with no more names than `Name` has indices: when `resolve`
-- gives a signature, the sort check `check_fn_sig` does not panic on it.
pub resolve-check_fn_sig :
    {E T : Type 0} (c : Setting E T) (parent : Option Hir.Impl) (generics : List Hir.GenericParam)
    (hir_sig : Hir.FnSig) (sig : Ast.FnSig) (resolved : Core.FnSig) {reports : List Error}
    → IsScopeMap c.exprs
    → IsScopeMap c.types
    → c.max_index + 1 < word
    → Compiled parent generics hir_sig
    → length sig.generics + length sig.requires + length sig.ensures ≤ c.max_index + 1
    → resolve c parent generics hir_sig sig ≡ some (ok resolved, reports)
    → NoPanic (check_fn_sig resolved)
resolve-check_fn_sig c parent generics hir_sig sig resolved laws types_laws small k h e =
    check_fn_sig-NoPanic resolved
      (Reports_inv (resolve-Reports c parent generics hir_sig sig laws types_laws small k h) e)
