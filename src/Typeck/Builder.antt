-- ===== src/Typeck/Builder.antt =====
-- `ConstraintBuilder`, `Cursor` and `Node` of liquid-rust-typeck/src/constraint_builder.rs. A cursor's
-- `NonNull<Node>` is the path of child positions from the root to its node. A snapshot is a copy of
-- the cursor; when it ends, its builder goes back to the cursor that it was taken from (`resume`).
pub mod Subtyping
pub mod Translate
pub mod Fresh
pub mod Agree
pub mod Along
pub mod Implies
pub mod Names
pub mod Keeps
pub mod Monotone
pub mod Soundness
pub mod Paths
pub mod Shapes
pub mod Progress
use liquid_rust.Base.{
  ℕ, zero, suc, ◌+◌, Bool, true, false, List, [], ◌∷◌, ◌++◌, map, take, length, set, ltb, leb,
  if◌then◌else◌, Option, some, none, Outcome, ok, panicked, ◌>>=◌,
}
use liquid_rust.Fixpoint.Constraint.{Name, Kvid, Sort}
use liquid_rust.Typeck.Ty.{Var, Expr, Pred, Ty, BaseTy, base_sort, subst_pred, is_true_pred}

-- `Nodes` is the vector of a node's children.
mutual
  pub data Node : Type 0 where
    conj : Nodes → Node
    for_all : Name → Sort → Pred → Nodes → Node
    guard : Expr → Nodes → Node
    head : Pred → Node

  pub data Nodes : Type 0 where
    nil : Nodes
    cons : Node → Nodes → Nodes

pub record Builder : Type 0 where
  pub root : Node
  pub kvars : List (List Sort)
  pub scopes : List ℕ
  pub vars : List (Name × Sort)
  pub name_gen : ℕ

pub record Cursor : Type 0 where
  pub builder : Builder
  pub open builder use *
  pub node : List ℕ
  pub nscopes : ℕ
  pub nvars : ℕ

-- `ConstraintBuilder::new` and `as_cursor`
abbrev pub new_builder : Builder
new_builder = record {
  root = Node.conj Nodes.nil;
  kvars = [];
  scopes = [];
  vars = [];
  name_gen = 0;
}

abbrev pub as_cursor : Builder → Cursor
as_cursor b = record { builder = b; node = []; nscopes = 0; nvars = 0 }

-- The cursor `outer`, after its snapshot `inner` has been used.
abbrev pub resume : Cursor → Cursor → Cursor
resume outer inner = record outer { builder = inner.builder }

abbrev pub is_head : Node → Bool
is_head (Node.head _) = true
is_head _ = false

-- `children.push(node)`, with the position of the new child
abbrev pub push_back : Nodes → Node → Nodes × ℕ
push_back Nodes.nil new = (Nodes.cons new Nodes.nil, 0)
push_back (Nodes.cons n ns) new = let (ns', i) = push_back ns new in (Nodes.cons n ns', suc i)

-- The tree with `new` pushed into the node at a path, and the position of the new child. A head node
-- has no children: `unreachable!`. A path that leads out of the tree would be a dangling pointer.
unfoldable mutual
  pub push_at : Node → List ℕ → Node → Outcome (Node × ℕ)
  push_at (Node.conj ns) [] new = let (ns', i) = push_back ns new in ok (Node.conj ns', i)
  push_at (Node.conj ns) (k ∷ path) new = do (ns', i) ← push_in ns k path new; ok (Node.conj ns', i)
  push_at (Node.for_all x s p ns) [] new =
      let (ns', i) = push_back ns new in ok (Node.for_all x s p ns', i)
  push_at (Node.for_all x s p ns) (k ∷ path) new = do
    (ns', i) ← push_in ns k path new
    ok (Node.for_all x s p ns', i)
  push_at (Node.guard e ns) [] new = let (ns', i) = push_back ns new in ok (Node.guard e ns', i)
  push_at (Node.guard e ns) (k ∷ path) new = do
    (ns', i) ← push_in ns k path new
    ok (Node.guard e ns', i)
  push_at (Node.head p) path new = panicked

  pub push_in : Nodes → ℕ → List ℕ → Node → Outcome (Nodes × ℕ)
  push_in Nodes.nil k path new = panicked
  push_in (Nodes.cons n ns) zero path new = do
    (n', i) ← push_at n path new
    ok (Nodes.cons n' ns, i)
  push_in (Nodes.cons n ns) (suc k) path new = do
    (ns', i) ← push_in ns k path new
    ok (Nodes.cons n ns', i)

-- The cursor moves to the new node, unless that is a head.
unfoldable pub push_node : Cursor → Node → Outcome Cursor
push_node c new = do
  (root', i) ← push_at c.root c.node new
  let b = c.builder
  ok (record c {
    builder = record b { root = root' };
    node = if is_head new then c.node else c.node ++ (i ∷ []);
  })

-- A write at a position of a vector, or a push at its end.
abbrev pub set_or_push {ℓ} : {A : Type ℓ} → List A → ℕ → A → List A
set_or_push xs n x = if ltb n (length xs) then set xs n x else xs ++ (x ∷ [])

unfoldable pub push_scope : Cursor → Cursor
push_scope c =
    let b = c.builder in
    record c {
      builder = record b { scopes = set_or_push b.scopes c.nscopes c.nvars };
      nscopes = c.nscopes + 1;
    }

unfoldable pub push_var : Cursor → Name → Sort → Cursor
push_var c x s =
    let b = c.builder in
    record c {
      builder = record b { vars = set_or_push b.vars c.nvars (x, s) };
      nvars = c.nvars + 1;
    }

unfoldable pub push_forall : Cursor → Name → Sort → Pred → Outcome Cursor
push_forall c x s p = do c' ← push_node c (Node.for_all x s p Nodes.nil); ok (push_var c' x s)

unfoldable pub push_guard : Cursor → Expr → Outcome Cursor
push_guard c e = push_node c (Node.guard e Nodes.nil)

-- A head that is literally `true` is left out.
unfoldable pub push_head : Cursor → Pred → Outcome Cursor
push_head c p = let pushed = push_node c (Node.head p) in if is_true_pred p then ok c else pushed

-- `vars_in_scope`, which panics if the vector is shorter
abbrev pub vars_in_scope : Builder → ℕ → Outcome (List (Name × Sort))
vars_in_scope b scope = if leb scope (length b.vars) then ok (take scope b.vars) else panicked

abbrev pub free_var : Name × Sort → Expr
free_var (x, _) = Expr.var (Var.free x)

-- `kvars.push` gives the index of an unknown predicate. The index is a number here: that it has a
-- largest value, above which the code panics, is left out.
unfoldable pub fresh_kvar_at_scope : Cursor → Sort → ℕ → Outcome (Pred × Cursor)
fresh_kvar_at_scope c s scope = do
  xs ← vars_in_scope c.builder scope
  let b = c.builder
  let sorts = s ∷ map (λ (_, t). t) xs
  let args = Expr.var Var.bound ∷ map free_var xs
  ok (
    Pred.kvar (length b.kvars) args,
    record c { builder = record b { kvars = b.kvars ++ (sorts ∷ []) } },
  )

unfoldable pub fresh_kvar : Cursor → Sort → Outcome (Pred × Cursor)
fresh_kvar c s = fresh_kvar_at_scope c s c.nvars

-- `scopes.last()`
abbrev pub last_or : List ℕ → ℕ → ℕ
last_or [] d = d
last_or (x ∷ xs) d = last_or xs x

unfoldable pub fresh_kvar_at_last_scope : Cursor → Sort → Outcome (Pred × Cursor)
fresh_kvar_at_last_scope c s = fresh_kvar_at_scope c s (last_or c.scopes 0)

-- `name_gen.fresh()`, on a counter without a largest name: the code panics above the largest index of
-- `Name`.
unfoldable pub fresh_name : Cursor → Name × Cursor
fresh_name c =
    let b = c.builder in (b.name_gen, record c { builder = record b { name_gen = b.name_gen + 1 } })

-- An existential type is opened with a fresh name for its value.
unfoldable pub unpack : Cursor → Ty → Outcome (Ty × Cursor)
unpack c (Ty.exists bty p) = do
  let (fresh, c₁) = fresh_name c
  let x = Expr.var (Var.free fresh)
  c₂ ← push_forall c₁ fresh (base_sort bty) (subst_pred p x)
  ok (Ty.refine bty x, c₂)
unpack c ty = ok (ty, c)
