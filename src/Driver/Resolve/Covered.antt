-- ===== src/Driver/Resolve/Covered.antt =====
-- Expressions of a signature resolved by liquid-rust-driver/src/resolve.rs do not make the sort check of
-- liquid-rust-core/src/wf.rs panic where the environment covers them.
use liquid_rust.Base.{
  ℕ, suc, ◌∷◌, some, ◌≡◌, refl, arith, Outcome, ok, reported, ◌>>=◌, ◌>>◌, unwrap, ap, ℕ_discrete,
  NoPanic, NoPanic-bind,
}
use mathlib.Core.Logic.{ite}
use liquid_rust.Fixpoint.Constraint.{Sort, Sort-discrete}
use liquid_rust.Common.Iter.{ErrorReported-semi_group}
use liquid_rust.Core.Ty.{Var, Expr, Ty, Param, Var-discrete}
use liquid_rust.Core.Wf.{
  Env, lookup, expect_sort, Signature, signature, synth_expr, check_expr, left_by, with_param,
}
use liquid_rust.Driver.Resolve.Closed.{Below, BelowOrBound, VarsIn}

-- The environment knows the sort of each variable of which `P` holds.
abbrev pub Covers : (Var → Type 0) → Env → Type 0
Covers P env = (v : Var) → P v → (s : Sort) × (lookup env v ≡ some s)

expect_sort-NoPanic : (expected found : Sort) → NoPanic (expect_sort expected found)
unfolding expect_sort
expect_sort-NoPanic expected found =
    elim (Sort-discrete found expected) as (λ d. NoPanic (ite d (ok tt) reported)) [
      | yes _ ↦ tt
      | no _ ↦ tt
    ]

module _ (m1 m2 : Outcome Sort) (h1 : NoPanic m1) (h2 : NoPanic m2) where
  operands-NoPanic :
      (sig : Signature)
      → NoPanic (elim sig as (λ _. Outcome Sort) [
        | Signature.takes operand result ↦ m1 >>= λ s1.
            expect_sort operand s1 >> (m2 >>= λ s2. expect_sort operand s2 >> ok result)
        | Signature.same ↦ m1 >>= λ s. m2 >>= λ s2. expect_sort s s2 >> ok Sort.bool
      ])
  operands-NoPanic (Signature.takes operand result) = NoPanic-bind m1 _ h1 (λ s1.
      NoPanic-bind (expect_sort operand s1) _ (expect_sort-NoPanic operand s1) (λ _.
        NoPanic-bind m2 _ h2 (λ s2.
          NoPanic-bind (expect_sort operand s2) _ (expect_sort-NoPanic operand s2) (λ _. tt))))
  operands-NoPanic Signature.same = NoPanic-bind m1 _ h1 (λ s.
      NoPanic-bind m2 _ h2
        (λ s2. NoPanic-bind (expect_sort s s2) _ (expect_sort-NoPanic s s2) (λ _. tt)))

module _ (P : Var → Type 0) (env : Env) (h : Covers P env) where
  synth_expr-NoPanic : (e : Expr) → VarsIn P e → NoPanic (synth_expr env e)
  unfolding synth_expr
  synth_expr-NoPanic (Expr.var v) p = let (s, e) = h v p in rw (e, unwrap) tt
  synth_expr-NoPanic (Expr.literal lit) p = tt
  synth_expr-NoPanic (Expr.binary_op op e1 e2) (p1, p2) =
      operands-NoPanic (synth_expr env e1) (synth_expr env e2) (synth_expr-NoPanic e1 p1)
        (synth_expr-NoPanic e2 p2) (signature op)

  pub check_expr-NoPanic : (e : Expr) (s : Sort) → VarsIn P e → NoPanic (check_expr env e s)
  unfolding check_expr
  check_expr-NoPanic e s p =
      NoPanic-bind (synth_expr env e) _ (synth_expr-NoPanic e p) (λ t. expect_sort-NoPanic s t)

pub Covers-bound :
    (n : ℕ) (env : Env) (s : Sort)
    → Covers (Below n) env
    → Covers (BelowOrBound n) ((Var.bound, s) ∷ env)
unfolding lookup Var-discrete
Covers-bound n env s h Var.bound p = (s, refl)
Covers-bound n env s h (Var.free m) p = h (Var.free m) p

pub Covers-left_by :
    (n : ℕ) (ty : Ty) (env : Env) → Covers (Below n) env → Covers (Below n) (left_by ty env)
unfolding lookup Var-discrete
Covers-left_by n (Ty.exists bty pred) env h (Var.free m) p = h (Var.free m) p
Covers-left_by n (Ty.exists bty pred) env h Var.bound p = elim p [ ]
Covers-left_by n (Ty.refine bty e) env h v q = h v q
Covers-left_by n (Ty.mut_ref m) env h v q = h v q
Covers-left_by n (Ty.param p) env h v q = h v q

pub Covers-with_param :
    (i : ℕ) (p : Param) (env : Env)
    → p.name ≡ i
    → Covers (Below i) env
    → Covers (Below (suc i)) (with_param p env)
unfolding lookup
Covers-with_param i p env e h Var.bound q = elim q [ ]
Covers-with_param i p env e h (Var.free m) q =
    elim (Var-discrete (Var.free p.name) (Var.free m))
      as (λ d. (s : Sort) × (ite d (some p.sort) (lookup env (Var.free m)) ≡ some s)) [
        | yes _ ↦ (p.sort, refl)
        | no n ↦ elim (ℕ_discrete p.name m) [
          | yes e' ↦ absurd (n (ap Var.free e'))
          | no n' ↦ h (Var.free m) (omega arith)
        ]
      ]
