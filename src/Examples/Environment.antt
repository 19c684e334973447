-- ===== src/Examples/Environment.antt =====
-- Runs of subtyping, and of the operations of environments, of liquid-rust-typeck.
use liquid_rust.Base.{
  subst, [], ◌∷◌, some, ◌≡◌, refl, Outcome, ok, Returns, ℕ_discrete, arith, inl, find, insert,
}
use liquid_rust.Typeck.Ty.{Var, Loc, Expr, Ty, BaseTy, Loc-discrete, subst_pred, subst_expr}
use liquid_rust.Typeck.Ty.Meaning.{eval}
use liquid_rust.Typeck.Builder as Builder
use liquid_rust.Typeck.Builder.{
  Cursor, as_cursor, new_builder, push_forall, push_node, push_at, push_in, push_head, push_var,
  push_scope, fresh_name,
}
use liquid_rust.Typeck.Builder.Along.{Along}
use liquid_rust.Typeck.Builder.Subtyping.{is_trivial, bty_subtyping, unpacked_subtyping, subtyping}
use liquid_rust.Typeck.Builder.Soundness.Relation.{TyClosed, Subtype}
use liquid_rust.Typeck.Builder.Soundness.{subtyping-Subtype}
use liquid_rust.Typeck.Builder.Shapes.{SameTy, SameBase}
use liquid_rust.Typeck.Builder.Paths.{Stays}
use liquid_rust.Typeck.Builder.Progress.{subtyping-Stays}
use liquid_rust.Typeck.Builder.Translate.Closed.{HoldsNode}
use liquid_rust.Typeck.TypeEnv as TypeEnv
use liquid_rust.Typeck.TypeEnv.{
  TypeEnv, Binding, find_loc, lookup_loc, weakening, walk_place, walk_projection, write_place,
  write_loc, update_loc, update_binding, unpack_locs, unpack_loc, binding_ty,
}
use liquid_rust.Typeck.TypeEnv.Lookup.{Weakens, weakening-Weakens}
use liquid_rust.Typeck.TypeEnv.Unpacked.{IsUnpacked, unpack-Unpacked}
use liquid_rust.Typeck.TypeEnv.{update_loc, update_binding}
use liquid_rust.Typeck.TypeEnv.Update.{BoundClosed, Updated, update_loc-Updated}
use liquid_rust.Examples.Typeck.{
  constants, zero_value, builder, three, exactly_three, no_variances, after_subtyping,
  subtyping_runs,
}

three-TyClosed : TyClosed 1 three
three-TyClosed = (tt, (tt, tt))

exactly_three-TyClosed : TyClosed 1 exactly_three
exactly_three-TyClosed = (tt, tt)

-- the tree after subtyping, where every value is 0
after_subtyping-HoldsNode : HoldsNode constants zero_value (λ x. zero_value) after_subtyping.root
unfolding subtyping is_trivial Builder.unpack ℕ_discrete push_forall push_node push_at fresh_name
    unpacked_subtyping bty_subtyping push_head push_var subst_pred subst_expr eval
after_subtyping-HoldsNode =
    λ v hv holds. (refl, ((constants.eq_iff v v).1 refl, ((λ w hw equal. (equal, tt)), tt)))

subtyping-Subtype_example :
    Along constants zero_value builder.root []
      (λ x. zero_value)
      (λ ρ. Subtype no_variances constants zero_value ρ three exactly_three)
subtyping-Subtype_example =
    subtyping-Subtype no_variances 1 (as_cursor builder) three exactly_three after_subtyping
      three-TyClosed exactly_three-TyClosed subtyping_runs constants zero_value (λ x. zero_value)
      after_subtyping-HoldsNode

subtyping-Stays_example :
    Returns
      (Stays (as_cursor builder))
      (subtyping no_variances 1 (as_cursor builder) three exactly_three)
subtyping-Stays_example =
    subtyping-Stays no_variances 1 (as_cursor builder) three exactly_three tt
      (inl (SameTy.exists_refine _ _ (SameBase.int 32))) (omega arith)

abbrev start : Cursor
start = as_cursor new_builder

abbrev uninit_result : TypeEnv
uninit_result = (Loc.local 0, Binding.strong Ty.uninit) ∷ []

abbrev pair_or : Outcome (TypeEnv × Cursor) → TypeEnv × Cursor
pair_or (ok x) = x
pair_or _ = ([], start)

abbrev two_locals : TypeEnv
two_locals = (Loc.local 0, Binding.strong exactly_three) ∷ (Loc.local 1, Binding.strong three) ∷ []

weakening-Weakens_example :
    Weakens
      (lookup_loc uninit_result (Loc.local 0))
      (find_loc two_locals (Loc.local 0))
      (find_loc (weakening two_locals uninit_result) (Loc.local 0))
unfolding find ℕ_discrete Loc-discrete
weakening-Weakens_example =
    weakening-Weakens two_locals uninit_result (Loc.local 0) (refl, (refl, tt))

-- a reference to a value of type `i32{v: v = 3}`
abbrev reference : TypeEnv
reference = (Loc.local 0, Binding.strong (Ty.ref three)) ∷ []

abbrev unpacked : TypeEnv × Cursor
unpacked = pair_or (TypeEnv.unpack reference start)

reference_unpacks : TypeEnv.unpack reference start ≡ ok unpacked
unfolding TypeEnv.unpack unpack_locs unpack_loc find insert Loc-discrete ℕ_discrete Builder.unpack
    push_forall push_node push_at push_var fresh_name
reference_unpacks = refl

referent_found :
    find_loc unpacked.0 (Loc.abstract 0)
    ≡ some (Binding.weak three (Ty.refine (BaseTy.int 32) (Expr.var (Var.free 1))))
unfolding TypeEnv.unpack unpack_locs unpack_loc find insert Loc-discrete ℕ_discrete Builder.unpack
    push_forall push_node push_at push_var fresh_name
referent_found = refl

unpack-Unpacked_example : IsUnpacked (Ty.refine (BaseTy.int 32) (Expr.var (Var.free 1)))
unpack-Unpacked_example =
    unpack-Unpacked reference start unpacked.0 unpacked.1 (Loc.abstract 0)
      (Binding.weak three (Ty.refine (BaseTy.int 32) (Expr.var (Var.free 1)))) reference_unpacks
      referent_found

-- a location behind a reference to values of type `i32{v: v = 3}`, and the update to another such value
abbrev weak_env : TypeEnv
weak_env = (Loc.abstract 0, Binding.weak three exactly_three) ∷ []

abbrev updated : TypeEnv × Cursor
updated =
    pair_or (update_loc no_variances weak_env (as_cursor builder) (Loc.abstract 0) exactly_three)

update_runs :
    update_loc no_variances weak_env (as_cursor builder) (Loc.abstract 0) exactly_three ≡ ok updated
unfolding update_loc update_binding find insert Loc-discrete ℕ_discrete subtyping is_trivial
    Builder.unpack unpacked_subtyping bty_subtyping push_head push_node push_at subst_pred
    subst_expr
update_runs = refl

weak_env-BoundClosed :
    (binding : Binding)
    → find_loc weak_env (Loc.abstract 0) ≡ some binding
    → BoundClosed (as_cursor builder) binding
unfolding find Loc-discrete ℕ_discrete
weak_env-BoundClosed binding h =
    let same : Binding.weak three exactly_three ≡ binding = cc in
    subst (BoundClosed (as_cursor builder)) same three-TyClosed

update_loc-Updated_example :
    (binding : Binding) × (find_loc weak_env (Loc.abstract 0) ≡ some binding)
    × Updated no_variances weak_env
        (as_cursor builder)
        (Loc.abstract 0)
        exactly_three
        binding
        updated.0
        updated.1
update_loc-Updated_example =
    update_loc-Updated no_variances weak_env (as_cursor builder) (Loc.abstract 0) exactly_three
      updated.0 updated.1 exactly_three-TyClosed weak_env-BoundClosed update_runs
