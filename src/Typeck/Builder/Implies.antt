-- ===== src/Typeck/Builder/Implies.antt =====
-- What pushing a node does to the meaning of a constraint tree,
-- liquid-rust-typeck/src/constraint_builder.rs.
use liquid_rust.Base.{ℕ, zero, suc, ◌≡◌, subst, List, [], ◌∷◌, ◌++◌, Outcome, ok, >>=-eq-ok}
use liquid_rust.Fixpoint.Constraint.{Name, Sort}
use liquid_rust.Typeck.Ty.{Expr, Pred}
use liquid_rust.Typeck.Ty.Meaning.{Structure, Env, bind}
use liquid_rust.Typeck.Builder.{Node, Nodes, push_back, push_at, push_in}
use liquid_rust.Typeck.Builder.Translate.Closed.{HoldsNode, HoldsNodes}
use liquid_rust.Typeck.Builder.Along.{Assertion, Along, AlongIn}

module _ (M : Structure) (ν : M.Value) where
  -- The tree `n'` is `n` with `new` as child `i` of the node at a path.
  pub record Pushed (n : Node) (path : List ℕ) (new n' : Node) (i : ℕ) : Type 1 where
    -- no obligation is lost
    pub implies : (ρ : Env M) → HoldsNode M ν ρ n' → HoldsNode M ν ρ n
    -- the new node is an obligation at its place
    pub adds : (ρ : Env M) → HoldsNode M ν ρ n' → Along M ν n path ρ (λ ρ'. HoldsNode M ν ρ' new)
    -- every old place is under the same binders as before
    pub grows :
        (q : List ℕ) (ρ : Env M) (Q : Assertion M ν) → Along M ν n' q ρ Q → Along M ν n q ρ Q
    -- the place of the new node is under its own binder too
    pub reaches :
        (ρ : Env M) (Q : Assertion M ν)
        → Along M ν n' (path ++ (i ∷ [])) ρ Q
        → Along M ν n path ρ (λ ρ'. Along M ν new [] ρ' Q)

  -- The same for child `k` of a node with the children `ns`.
  record PushedIn (ns : Nodes) (k : ℕ) (path : List ℕ) (new : Node) (ns' : Nodes) (i : ℕ)
      : Type 1 where
    pub implies : (ρ : Env M) → HoldsNodes M ν ρ ns' → HoldsNodes M ν ρ ns
    pub adds :
        (ρ : Env M) → HoldsNodes M ν ρ ns' → AlongIn M ν ns k path ρ (λ ρ'. HoldsNode M ν ρ' new)
    pub grows :
        (j : ℕ) (q : List ℕ) (ρ : Env M) (Q : Assertion M ν)
        → AlongIn M ν ns' j q ρ Q
        → AlongIn M ν ns j q ρ Q
    pub reaches :
        (ρ : Env M) (Q : Assertion M ν)
        → AlongIn M ν ns' k (path ++ (i ∷ [])) ρ Q
        → AlongIn M ν ns k path ρ (λ ρ'. Along M ν new [] ρ' Q)

  push_back-implies :
      (ns : Nodes) (new : Node) (ρ : Env M)
      → HoldsNodes M ν ρ (push_back ns new).0
      → HoldsNodes M ν ρ ns
  push_back-implies Nodes.nil new ρ h = tt
  push_back-implies (Nodes.cons n ns) new ρ h = (h.0, push_back-implies ns new ρ h.1)

  push_back-adds :
      (ns : Nodes) (new : Node) (ρ : Env M)
      → HoldsNodes M ν ρ (push_back ns new).0
      → HoldsNode M ν ρ new
  push_back-adds Nodes.nil new ρ h = h.0
  push_back-adds (Nodes.cons n ns) new ρ h = push_back-adds ns new ρ h.1

  push_back-grows :
      (ns : Nodes) (new : Node) (j : ℕ) (q : List ℕ) (ρ : Env M) (Q : Assertion M ν)
      → AlongIn M ν (push_back ns new).0 j q ρ Q
      → AlongIn M ν ns j q ρ Q
  push_back-grows Nodes.nil new j q ρ Q h = tt
  push_back-grows (Nodes.cons n ns) new zero q ρ Q h = h
  push_back-grows (Nodes.cons n ns) new (suc j) q ρ Q h = push_back-grows ns new j q ρ Q h

  push_back-reaches :
      (ns : Nodes) (new : Node) (ρ : Env M) (Q : Assertion M ν)
      → AlongIn M ν (push_back ns new).0 (push_back ns new).1 [] ρ Q
      → Along M ν new [] ρ Q
  push_back-reaches Nodes.nil new ρ Q h = h
  push_back-reaches (Nodes.cons n ns) new ρ Q h = push_back-reaches ns new ρ Q h

  -- The places below the children `ns` and `ns'`
  abbrev ChildrenGrow : Nodes → Nodes → Type 1
  ChildrenGrow ns ns' =
      (j : ℕ) (q : List ℕ) (ρ : Env M) (Q : Assertion M ν)
      → AlongIn M ν ns' j q ρ Q
      → AlongIn M ν ns j q ρ Q

  first-grows :
      (n n' : Node) (ns : Nodes)
      → ((q : List ℕ) (ρ : Env M) (Q : Assertion M ν) → Along M ν n' q ρ Q → Along M ν n q ρ Q)
      → ChildrenGrow (Nodes.cons n ns) (Nodes.cons n' ns)
  first-grows n n' ns g zero q ρ Q h = g q ρ Q h
  first-grows n n' ns g (suc j) q ρ Q h = h

  rest-grows :
      (n : Node) (ns ns' : Nodes)
      → ChildrenGrow ns ns'
      → ChildrenGrow (Nodes.cons n ns) (Nodes.cons n ns')
  rest-grows n ns ns' g zero q ρ Q h = h
  rest-grows n ns ns' g (suc j) q ρ Q h = g j q ρ Q h

  conj-grows :
      (ns ns' : Nodes)
      → ChildrenGrow ns ns'
      → (q : List ℕ) (ρ : Env M) (Q : Assertion M ν) → Along M ν (Node.conj ns') q ρ Q
      → Along M ν (Node.conj ns) q ρ Q
  conj-grows ns ns' g [] ρ Q h = h
  conj-grows ns ns' g (j ∷ q) ρ Q h = g j q ρ Q h

  -- An assertion under a binder or a guard follows from one there.
  module _ (x : Name) (s : Sort) (p : Pred) where
    for_all-grows :
        (ns ns' : Nodes)
        → ChildrenGrow ns ns'
        → (q : List ℕ) (ρ : Env M) (Q : Assertion M ν) → Along M ν (Node.for_all x s p ns') q ρ Q
        → Along M ν (Node.for_all x s p ns) q ρ Q
    for_all-grows ns ns' g [] ρ Q h = h
    for_all-grows ns ns' g (j ∷ q) ρ Q h = λ v hv hp. g j q (bind M ρ x v) Q (h v hv hp)

  module _ (e : Expr) where
    guard-grows :
        (ns ns' : Nodes)
        → ChildrenGrow ns ns'
        → (q : List ℕ) (ρ : Env M) (Q : Assertion M ν) → Along M ν (Node.guard e ns') q ρ Q
        → Along M ν (Node.guard e ns) q ρ Q
    guard-grows ns ns' g [] ρ Q h = h
    guard-grows ns ns' g (j ∷ q) ρ Q h = λ t. g j q ρ Q (h t)

  Pushed-subst :
      (n : Node) (path : List ℕ) (new m n' : Node) (j i : ℕ)
      → ◌≡◌ {A = Outcome (Node × ℕ)} (ok (m, j)) (ok (n', i))
      → Pushed n path new m j
      → Pushed n path new n' i
  Pushed-subst n path new m n' j i h k =
      let e : m ≡ n' = cc in
      let e' : j ≡ i = cc in
      subst (λ x. Pushed n path new x i) e (subst (λ x. Pushed n path new m x) e' k)

  PushedIn-subst :
      (ns : Nodes) (k : ℕ) (path : List ℕ) (new : Node) (ms ns' : Nodes) (j i : ℕ)
      → ◌≡◌ {A = Outcome (Nodes × ℕ)} (ok (ms, j)) (ok (ns', i))
      → PushedIn ns k path new ms j
      → PushedIn ns k path new ns' i
  PushedIn-subst ns k path new ms ns' j i h p =
      let e : ms ≡ ns' = cc in
      let e' : j ≡ i = cc in
      subst (λ x. PushedIn ns k path new x i) e (subst (λ x. PushedIn ns k path new ms x) e' p)

  mutual
    unfolding push_at push_in

    pub push_at-Pushed :
        (n : Node) (path : List ℕ) (new n' : Node) (i : ℕ)
        → push_at n path new ≡ ok (n', i)
        → Pushed n path new n' i
    push_at-Pushed (Node.conj ns) [] new n' i h =
        Pushed-subst (Node.conj ns) [] new (Node.conj (push_back ns new).0) n' (push_back ns new).1
          i h
          (record {
            implies = push_back-implies ns new;
            adds = push_back-adds ns new;
            grows = conj-grows ns (push_back ns new).0 (push_back-grows ns new);
            reaches = push_back-reaches ns new;
          })
    push_at-Pushed (Node.conj ns) (k ∷ path) new n' i h =
        let ((ns', j), h1, h2) =
          >>=-eq-ok (push_in ns k path new) (λ (ns', i). ok (Node.conj ns', i)) h in
        let p = push_in-PushedIn ns k path new ns' j h1 in
        Pushed-subst (Node.conj ns) (k ∷ path) new (Node.conj ns') n' j i h2 (record {
          implies = p.implies;
          adds = p.adds;
          grows = conj-grows ns ns' p.grows;
          reaches = p.reaches;
        })
    push_at-Pushed (Node.for_all x s p ns) [] new n' i h =
        let (ns', j) = push_back ns new in
        Pushed-subst (Node.for_all x s p ns) [] new (Node.for_all x s p ns') n' j i h (record {
          implies = λ ρ f v hv hp. push_back-implies ns new (bind M ρ x v) (f v hv hp);
          adds = λ ρ f v hv hp. push_back-adds ns new (bind M ρ x v) (f v hv hp);
          grows = for_all-grows x s p ns ns' (push_back-grows ns new);
          reaches = λ ρ Q f v hv hp. push_back-reaches ns new (bind M ρ x v) Q (f v hv hp);
        })
    push_at-Pushed (Node.for_all x s p ns) (k ∷ path) new n' i h =
        let ((ns', j), h1, h2) =
          >>=-eq-ok (push_in ns k path new) (λ (ns', i). ok (Node.for_all x s p ns', i)) h in
        let r = push_in-PushedIn ns k path new ns' j h1 in
        Pushed-subst (Node.for_all x s p ns) (k ∷ path) new (Node.for_all x s p ns') n' j i h2
          (record {
            implies = λ ρ f v hv hp. r.implies (bind M ρ x v) (f v hv hp);
            adds = λ ρ f v hv hp. r.adds (bind M ρ x v) (f v hv hp);
            grows = for_all-grows x s p ns ns' r.grows;
            reaches = λ ρ Q f v hv hp. r.reaches (bind M ρ x v) Q (f v hv hp);
          })
    push_at-Pushed (Node.guard e ns) [] new n' i h =
        let (ns', j) = push_back ns new in
        Pushed-subst (Node.guard e ns) [] new (Node.guard e ns') n' j i h (record {
          implies = λ ρ f t. push_back-implies ns new ρ (f t);
          adds = λ ρ f t. push_back-adds ns new ρ (f t);
          grows = guard-grows e ns ns' (push_back-grows ns new);
          reaches = λ ρ Q f t. push_back-reaches ns new ρ Q (f t);
        })
    push_at-Pushed (Node.guard e ns) (k ∷ path) new n' i h =
        let ((ns', j), h1, h2) =
          >>=-eq-ok (push_in ns k path new) (λ (ns', i). ok (Node.guard e ns', i)) h in
        let r = push_in-PushedIn ns k path new ns' j h1 in
        Pushed-subst (Node.guard e ns) (k ∷ path) new (Node.guard e ns') n' j i h2 (record {
          implies = λ ρ f t. r.implies ρ (f t);
          adds = λ ρ f t. r.adds ρ (f t);
          grows = guard-grows e ns ns' r.grows;
          reaches = λ ρ Q f t. r.reaches ρ Q (f t);
        })
    push_at-Pushed (Node.head p) path new n' i h = cc

    push_in-PushedIn :
        (ns : Nodes) (k : ℕ) (path : List ℕ) (new : Node) (ns' : Nodes) (i : ℕ)
        → push_in ns k path new ≡ ok (ns', i)
        → PushedIn ns k path new ns' i
    push_in-PushedIn Nodes.nil k path new ns' i h = cc
    push_in-PushedIn (Nodes.cons n ns) zero path new ns' i h =
        let ((n', j), h1, h2) =
          >>=-eq-ok (push_at n path new) (λ (n', i). ok (Nodes.cons n' ns, i)) h in
        let r = push_at-Pushed n path new n' j h1 in
        PushedIn-subst (Nodes.cons n ns) zero path new (Nodes.cons n' ns) ns' j i h2 (record {
          implies = λ ρ f. (r.implies ρ f.0, f.1);
          adds = λ ρ f. r.adds ρ f.0;
          grows = first-grows n n' ns r.grows;
          reaches = r.reaches;
        })
    push_in-PushedIn (Nodes.cons n ns) (suc k) path new ns' i h =
        let ((ms, j), h1, h2) =
          >>=-eq-ok (push_in ns k path new) (λ (ns', i). ok (Nodes.cons n ns', i)) h in
        let r = push_in-PushedIn ns k path new ms j h1 in
        PushedIn-subst (Nodes.cons n ns) (suc k) path new (Nodes.cons n ms) ns' j i h2 (record {
          implies = λ ρ f. (f.0, r.implies ρ f.1);
          adds = λ ρ f. r.adds ρ f.1;
          grows = rest-grows n ns ms r.grows;
          reaches = r.reaches;
        })
