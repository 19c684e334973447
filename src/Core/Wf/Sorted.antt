-- ===== src/Core/Wf/Sorted.antt =====
-- The sort checker of liquid-rust-core/src/wf.rs against an inductive judgement of sorts.
use liquid_rust.Base.{
  Bool, Option, none, some, ◌≡◌, refl, subst, ap, ◌∙◌, ◌↔◌, Outcome, ok, reported, ◌>>=◌, ◌>>◌,
  unwrap, >>=-eq-ok,
}
use mathlib.Core.Logic.{ite}
use liquid_rust.Fixpoint.Constraint.{Sort, Sort-discrete}
use liquid_rust.Core.Ty.{BinOp, Var, Lit, Expr}
use liquid_rust.Core.Wf.{Env, lookup, expect_sort, signature, synth_expr}

-- `Operates op s t`: both operands of `op` have the sort `s` and its result the sort `t`.
pub data Operates : BinOp → Sort → Sort → Type 0 where
  iff : Operates BinOp.iff Sort.bool Sort.bool
  imp : Operates BinOp.imp Sort.bool Sort.bool
  or : Operates BinOp.or Sort.bool Sort.bool
  and : Operates BinOp.and Sort.bool Sort.bool
  eq : {s : Sort} → Operates BinOp.eq s Sort.bool
  lt : Operates BinOp.lt Sort.int Sort.bool
  le : Operates BinOp.le Sort.int Sort.bool
  gt : Operates BinOp.gt Sort.int Sort.bool
  ge : Operates BinOp.ge Sort.int Sort.bool
  add : Operates BinOp.add Sort.int Sort.int
  sub : Operates BinOp.sub Sort.int Sort.int

-- `HasSort env e s`: in the environment `env` the expression `e` has the sort `s`.
pub data HasSort (env : Env) : Expr → Sort → Type 0 where
  var : {x : Var} {s : Sort} → lookup env x ≡ some s → HasSort env (Expr.var x) s
  int : {n : _} → HasSort env (Expr.literal (Lit.int n)) Sort.int
  bool : {b : Bool} → HasSort env (Expr.literal (Lit.bool b)) Sort.bool
  binary_op :
      {op : BinOp} {s t : Sort} {e1 e2 : Expr}
      → Operates op s t
      → HasSort env e1 s
      → HasSort env e2 s
      → HasSort env (Expr.binary_op op e1 e2) t

ok-inj : {A : Type 0} {a b : A} → ok a ≡ ok b → a ≡ b
ok-inj h = cc

ite_of : {P : Type 0} (d : Dec P) → P → ite d (ok (tt {0})) reported ≡ ok tt
ite_of (yes _) p = refl
ite_of (no n) p = elim (n p) [ ]

ite_inv : {P : Type 0} (d : Dec P) → ite d (ok (tt {0})) reported ≡ ok tt → P
ite_inv (yes e) h = e
ite_inv (no n) h = cc

pub expect_sort_self : (s : Sort) → expect_sort s s ≡ ok tt
unfolding expect_sort
expect_sort_self s = ite_of (Sort-discrete s s) refl

pub expect_sort_inv : (s t : Sort) → expect_sort s t ≡ ok tt → t ≡ s
unfolding expect_sort
expect_sort_inv s t h = ite_inv (Sort-discrete t s) h

-- The inversion of a check, and its use.
check_inv :
    {B : Type 0} (m : Outcome Sort) (s : Sort) (k : Outcome B) (b : B)
    → (m >>= λ t. expect_sort s t >> k) ≡ ok b
    → (m ≡ ok s) × (k ≡ ok b)
check_inv m s k b h =
    let (t, e, h') = >>=-eq-ok m (λ t. expect_sort s t >> k) h in
    let (_, e', h'') = >>=-eq-ok (expect_sort s t) (λ _. k) h' in
    (e ∙ ap ok (expect_sort_inv s t e'), h'')

check_of :
    {B : Type 0} (m : Outcome Sort) (s : Sort) (k : Outcome B)
    → m ≡ ok s
    → (m >>= λ t. expect_sort s t >> k) ≡ k
check_of m s k h = rw (h, expect_sort_self s)

unwrap_inv : {A : Type 0} (o : Option A) (a : A) → unwrap o ≡ ok a → o ≡ some a
unwrap_inv none a h = cc
unwrap_inv (some b) a h = cc

-- The two checks of an operator's operands.
module _ {env : Env} {op : BinOp} {e1 e2 : Expr} where
  HasSort-of_operands :
      {s t : Sort} (u : Sort) (m1 m2 : Outcome Sort)
      → Operates op s t
      → ((v : Sort) → m1 ≡ ok v → HasSort env e1 v)
      → ((v : Sort) → m2 ≡ ok v → HasSort env e2 v)
      → (m1 >>= λ s1. expect_sort s s1 >> (m2 >>= λ s2. expect_sort s s2 >> ok t)) ≡ ok u
      → HasSort env (Expr.binary_op op e1 e2) u
  HasSort-of_operands {s} {t} u m1 m2 o ih1 ih2 h =
      let (h1, h') = check_inv m1 s (m2 >>= λ s2. expect_sort s s2 >> ok t) u h in
      let (h2, h'') = check_inv m2 s (ok t) u h' in
      subst (λ x. HasSort env (Expr.binary_op op e1 e2) x) (ok-inj h'')
        (binary_op o (ih1 s h1) (ih2 s h2))

operands_of :
    (m1 m2 : Outcome Sort) (s t : Sort)
    → m1 ≡ ok s
    → m2 ≡ ok s
    → (m1 >>= λ s1. expect_sort s s1 >> (m2 >>= λ s2. expect_sort s s2 >> ok t)) ≡ ok t
operands_of m1 m2 s t h1 h2 = rw (h1, expect_sort_self s, h2, expect_sort_self s)

HasSort-of_synth : (env : Env) (e : Expr) (s : Sort) → synth_expr env e ≡ ok s → HasSort env e s
unfolding synth_expr signature
HasSort-of_synth env (Expr.var x) s h = var (unwrap_inv (lookup env x) s h)
HasSort-of_synth env (Expr.literal (Lit.int n)) s h =
    subst (HasSort env (Expr.literal (Lit.int n))) (ok-inj h) int
HasSort-of_synth env (Expr.literal (Lit.bool b)) s h =
    subst (HasSort env (Expr.literal (Lit.bool b))) (ok-inj h) bool
HasSort-of_synth env (Expr.binary_op BinOp.iff e1 e2) s h =
    HasSort-of_operands s (synth_expr env e1) (synth_expr env e2) iff (HasSort-of_synth env e1)
      (HasSort-of_synth env e2) h
HasSort-of_synth env (Expr.binary_op BinOp.imp e1 e2) s h =
    HasSort-of_operands s (synth_expr env e1) (synth_expr env e2) imp (HasSort-of_synth env e1)
      (HasSort-of_synth env e2) h
HasSort-of_synth env (Expr.binary_op BinOp.or e1 e2) s h =
    HasSort-of_operands s (synth_expr env e1) (synth_expr env e2) or (HasSort-of_synth env e1)
      (HasSort-of_synth env e2) h
HasSort-of_synth env (Expr.binary_op BinOp.and e1 e2) s h =
    HasSort-of_operands s (synth_expr env e1) (synth_expr env e2) and (HasSort-of_synth env e1)
      (HasSort-of_synth env e2) h
HasSort-of_synth env (Expr.binary_op BinOp.eq e1 e2) s h =
    let (v, h1, h') =
      >>=-eq-ok (synth_expr env e1)
        (λ s1. synth_expr env e2 >>= λ s2. expect_sort s1 s2 >> ok Sort.bool) h in
    let (h2, h'') = check_inv (synth_expr env e2) v (ok Sort.bool) s h' in
    subst (HasSort env (Expr.binary_op BinOp.eq e1 e2)) (ok-inj h'')
      (binary_op eq (HasSort-of_synth env e1 v h1) (HasSort-of_synth env e2 v h2))
HasSort-of_synth env (Expr.binary_op BinOp.lt e1 e2) s h =
    HasSort-of_operands s (synth_expr env e1) (synth_expr env e2) lt (HasSort-of_synth env e1)
      (HasSort-of_synth env e2) h
HasSort-of_synth env (Expr.binary_op BinOp.le e1 e2) s h =
    HasSort-of_operands s (synth_expr env e1) (synth_expr env e2) le (HasSort-of_synth env e1)
      (HasSort-of_synth env e2) h
HasSort-of_synth env (Expr.binary_op BinOp.gt e1 e2) s h =
    HasSort-of_operands s (synth_expr env e1) (synth_expr env e2) gt (HasSort-of_synth env e1)
      (HasSort-of_synth env e2) h
HasSort-of_synth env (Expr.binary_op BinOp.ge e1 e2) s h =
    HasSort-of_operands s (synth_expr env e1) (synth_expr env e2) ge (HasSort-of_synth env e1)
      (HasSort-of_synth env e2) h
HasSort-of_synth env (Expr.binary_op BinOp.add e1 e2) s h =
    HasSort-of_operands s (synth_expr env e1) (synth_expr env e2) add (HasSort-of_synth env e1)
      (HasSort-of_synth env e2) h
HasSort-of_synth env (Expr.binary_op BinOp.sub e1 e2) s h =
    HasSort-of_operands s (synth_expr env e1) (synth_expr env e2) sub (HasSort-of_synth env e1)
      (HasSort-of_synth env e2) h

synth_of_HasSort : (env : Env) {e : Expr} {s : Sort} → HasSort env e s → synth_expr env e ≡ ok s
unfolding synth_expr signature
synth_of_HasSort env (var h) = rw h
synth_of_HasSort env int = refl
synth_of_HasSort env bool = refl
synth_of_HasSort env (binary_op {e1} {e2} iff h1 h2) =
    operands_of (synth_expr env e1) (synth_expr env e2) Sort.bool Sort.bool
      (synth_of_HasSort env h1) (synth_of_HasSort env h2)
synth_of_HasSort env (binary_op {e1} {e2} imp h1 h2) =
    operands_of (synth_expr env e1) (synth_expr env e2) Sort.bool Sort.bool
      (synth_of_HasSort env h1) (synth_of_HasSort env h2)
synth_of_HasSort env (binary_op {e1} {e2} or h1 h2) =
    operands_of (synth_expr env e1) (synth_expr env e2) Sort.bool Sort.bool
      (synth_of_HasSort env h1) (synth_of_HasSort env h2)
synth_of_HasSort env (binary_op {e1} {e2} and h1 h2) =
    operands_of (synth_expr env e1) (synth_expr env e2) Sort.bool Sort.bool
      (synth_of_HasSort env h1) (synth_of_HasSort env h2)
synth_of_HasSort env (binary_op (eq {s}) h1 h2) =
    rw (synth_of_HasSort env h1, synth_of_HasSort env h2, expect_sort_self s)
synth_of_HasSort env (binary_op {e1} {e2} lt h1 h2) =
    operands_of (synth_expr env e1) (synth_expr env e2) Sort.int Sort.bool (synth_of_HasSort env h1)
      (synth_of_HasSort env h2)
synth_of_HasSort env (binary_op {e1} {e2} le h1 h2) =
    operands_of (synth_expr env e1) (synth_expr env e2) Sort.int Sort.bool (synth_of_HasSort env h1)
      (synth_of_HasSort env h2)
synth_of_HasSort env (binary_op {e1} {e2} gt h1 h2) =
    operands_of (synth_expr env e1) (synth_expr env e2) Sort.int Sort.bool (synth_of_HasSort env h1)
      (synth_of_HasSort env h2)
synth_of_HasSort env (binary_op {e1} {e2} ge h1 h2) =
    operands_of (synth_expr env e1) (synth_expr env e2) Sort.int Sort.bool (synth_of_HasSort env h1)
      (synth_of_HasSort env h2)
synth_of_HasSort env (binary_op {e1} {e2} add h1 h2) =
    operands_of (synth_expr env e1) (synth_expr env e2) Sort.int Sort.int (synth_of_HasSort env h1)
      (synth_of_HasSort env h2)
synth_of_HasSort env (binary_op {e1} {e2} sub h1 h2) =
    operands_of (synth_expr env e1) (synth_expr env e2) Sort.int Sort.int (synth_of_HasSort env h1)
      (synth_of_HasSort env h2)

-- In every environment the checker gives an expression a sort exactly when the judgement does: it
-- neither reports an error nor panics on an expression that has a sort, and gives that sort.
pub synth_expr-HasSort :
    (env : Env) (e : Expr) (s : Sort) → (synth_expr env e ≡ ok s) ↔ HasSort env e s
synth_expr-HasSort env e s = (HasSort-of_synth env e s, synth_of_HasSort env)
