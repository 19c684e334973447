-- ===== src/Typeck/Builder/Paths.antt =====
-- The nodes that a cursor can stand at, liquid-rust-typeck/src/constraint_builder.rs.
use liquid_rust.Base.{
  ℕ, zero, suc, ◌≡◌, refl, ◌∙◌, subst, List, [], ◌∷◌, ◌++◌, Returns, returns, Returns-bind,
  Bool-cases, inl, inr,
}
use liquid_rust.Fixpoint.Constraint.{Name, Sort}
use liquid_rust.Typeck.Ty.{Expr, Pred, is_true_pred}
use liquid_rust.Typeck.Builder.{
  Node, Nodes, Cursor, push_back, push_at, push_in, push_node, push_var, push_forall, push_head,
}

-- The path leads to a node that can have children.
abbrev mutual
  pub HasPath : Node → List ℕ → Type 0
  HasPath (Node.conj ns) [] = Unit
  HasPath (Node.conj ns) (k ∷ path) = HasPathIn ns k path
  HasPath (Node.for_all x s p ns) [] = Unit
  HasPath (Node.for_all x s p ns) (k ∷ path) = HasPathIn ns k path
  HasPath (Node.guard e ns) [] = Unit
  HasPath (Node.guard e ns) (k ∷ path) = HasPathIn ns k path
  HasPath (Node.head p) path = ⊥

  pub HasPathIn : Nodes → ℕ → List ℕ → Type 0
  HasPathIn Nodes.nil k path = ⊥
  HasPathIn (Nodes.cons n ns) zero path = HasPath n path
  HasPathIn (Nodes.cons n ns) (suc k) path = HasPathIn ns k path

-- Every path of `n` is one of `n'`.
abbrev ExtendsPaths : Node → Node → Type 0
ExtendsPaths n n' = (q : List ℕ) → HasPath n q → HasPath n' q

abbrev ExtendsPathsIn : Nodes → Nodes → Type 0
ExtendsPathsIn ns ns' = (k : ℕ) (q : List ℕ) → HasPathIn ns k q → HasPathIn ns' k q

-- The result of a push of `new` at a path
abbrev PushedAt : Node → List ℕ → Node → Node × ℕ → Type 0
PushedAt n path new (n', i) = ExtendsPaths n n' × (HasPath new [] → HasPath n' (path ++ (i ∷ [])))

abbrev PushedInto : Nodes → ℕ → List ℕ → Node → Nodes × ℕ → Type 0
PushedInto ns k path new (ns', i) =
    ExtendsPathsIn ns ns' × (HasPath new [] → HasPathIn ns' k (path ++ (i ∷ [])))

push_back-extends : (ns : Nodes) (new : Node) → ExtendsPathsIn ns (push_back ns new).0
push_back-extends (Nodes.cons n ns) new zero q h = h
push_back-extends (Nodes.cons n ns) new (suc k) q h = push_back-extends ns new k q h
push_back-extends Nodes.nil new k q h = elim h [ ]

push_back-path :
    (ns : Nodes) (new : Node)
    → HasPath new []
    → HasPathIn (push_back ns new).0 (push_back ns new).1 []
push_back-path Nodes.nil new h = h
push_back-path (Nodes.cons n ns) new h = push_back-path ns new h

conj-extends :
    (ns ns' : Nodes) → ExtendsPathsIn ns ns' → ExtendsPaths (Node.conj ns) (Node.conj ns')
conj-extends ns ns' f [] h = tt
conj-extends ns ns' f (k ∷ q) h = f k q h

for_all-extends :
    (x : Name) (s : Sort) (p : Pred) (ns ns' : Nodes)
    → ExtendsPathsIn ns ns'
    → ExtendsPaths (Node.for_all x s p ns) (Node.for_all x s p ns')
for_all-extends x s p ns ns' f [] h = tt
for_all-extends x s p ns ns' f (k ∷ q) h = f k q h

guard-extends :
    (e : Expr) (ns ns' : Nodes)
    → ExtendsPathsIn ns ns'
    → ExtendsPaths (Node.guard e ns) (Node.guard e ns')
guard-extends e ns ns' f [] h = tt
guard-extends e ns ns' f (k ∷ q) h = f k q h

first-extends :
    (n n' : Node) (ns : Nodes)
    → ExtendsPaths n n'
    → ExtendsPathsIn (Nodes.cons n ns) (Nodes.cons n' ns)
first-extends n n' ns f zero q h = f q h
first-extends n n' ns f (suc k) q h = h

rest-extends :
    (n : Node) (ns ns' : Nodes)
    → ExtendsPathsIn ns ns'
    → ExtendsPathsIn (Nodes.cons n ns) (Nodes.cons n ns')
rest-extends n ns ns' f zero q h = h
rest-extends n ns ns' f (suc k) q h = f k q h

mutual
  unfolding push_at push_in

  -- A push at a node that can have children succeeds, and no path is lost.
  pub push_at-Returns :
      (n : Node) (path : List ℕ) (new : Node)
      → HasPath n path
      → Returns (PushedAt n path new) (push_at n path new)
  push_at-Returns (Node.conj ns) [] new h =
      returns
        (conj-extends ns (push_back ns new).0 (push_back-extends ns new), push_back-path ns new)
  push_at-Returns (Node.conj ns) (k ∷ path) new h =
      Returns-bind (push_in-Returns ns k path new h)
        λ (ns', i) r. returns (conj-extends ns ns' r.0, r.1)
  push_at-Returns (Node.for_all x s p ns) [] new h = returns (
    for_all-extends x s p ns (push_back ns new).0 (push_back-extends ns new),
    push_back-path ns new,
  )
  push_at-Returns (Node.for_all x s p ns) (k ∷ path) new h =
      Returns-bind (push_in-Returns ns k path new h)
        λ (ns', i) r. returns (for_all-extends x s p ns ns' r.0, r.1)
  push_at-Returns (Node.guard e ns) [] new h =
      returns
        (guard-extends e ns (push_back ns new).0 (push_back-extends ns new), push_back-path ns new)
  push_at-Returns (Node.guard e ns) (k ∷ path) new h =
      Returns-bind (push_in-Returns ns k path new h)
        λ (ns', i) r. returns (guard-extends e ns ns' r.0, r.1)
  push_at-Returns (Node.head p) path new h = elim h [ ]

  push_in-Returns :
      (ns : Nodes) (k : ℕ) (path : List ℕ) (new : Node)
      → HasPathIn ns k path
      → Returns (PushedInto ns k path new) (push_in ns k path new)
  push_in-Returns Nodes.nil k path new h = elim h [ ]
  push_in-Returns (Nodes.cons n ns) zero path new h =
      Returns-bind (push_at-Returns n path new h)
        λ (n', i) r. returns (first-extends n n' ns r.0, r.1)
  push_in-Returns (Nodes.cons n ns) (suc k) path new h =
      Returns-bind (push_in-Returns ns k path new h)
        λ (ns', i) r. returns (rest-extends n ns ns' r.0, r.1)

-- The cursor stands where it did, and every path is still there.
pub record Stays (c c' : Cursor) : Type 0 where
  pub extends : (q : List ℕ) → HasPath c.root q → HasPath c'.root q
  pub same : c.node ≡ c'.node

pub Stays-refl : (c : Cursor) → Stays c c
Stays-refl c = record { extends = λ q h. h; same = refl }

pub Stays-trans : {c c₁ c' : Cursor} → Stays c c₁ → Stays c₁ c' → Stays c c'
Stays-trans h k = record { extends = λ q x. k.extends q (h.extends q x); same = h.same ∙ k.same }

-- The cursor stands at a node that can have children.
abbrev pub IsPlaced : Cursor → Type 0
IsPlaced c = HasPath c.root c.node

pub Stays-IsPlaced : (c c' : Cursor) → Stays c c' → IsPlaced c → IsPlaced c'
Stays-IsPlaced c c' s h = subst (HasPath c'.root) s.same (s.extends c.node h)

pub push_head-Stays : (c : Cursor) (p : Pred) → IsPlaced c → Returns (Stays c) (push_head c p)
unfolding push_head push_node
push_head-Stays c p h = elim (Bool-cases (is_true_pred p)) [
  | inl e ↦ rw e (returns (Stays-refl c))
  | inr e ↦ rw e (
      Returns-bind (push_at-Returns c.root c.node (Node.head p) h)
        λ (root', i) r. returns (record { extends = r.0; same = refl }))
]

-- Below a binder the cursor stands at the binder.
abbrev pub Entered : Cursor → Cursor → Type 0
Entered c c' = IsPlaced c' × ((q : List ℕ) → HasPath c.root q → HasPath c'.root q)

pub push_forall-Returns :
    (c : Cursor) (x : Name) (s : Sort) (p : Pred)
    → IsPlaced c
    → Returns (Entered c) (push_forall c x s p)
unfolding push_forall push_node push_var
push_forall-Returns c x s p h =
    let new = Node.for_all x s p Nodes.nil in
    let pushed : Returns (Entered c) (push_node c new) =
      Returns-bind (push_at-Returns c.root c.node new h) λ (root', i) r. returns (r.1 tt, r.0) in
    Returns-bind pushed λ c₁ r. returns r
