-- ===== src/Typeck/Builder/Names.antt =====
-- The names that a constraint tree binds, liquid-rust-typeck/src/constraint_builder.rs.
use liquid_rust.Base.{
  ℕ, zero, suc, ◌+◌, ◌≡◌, sym, ap, ◌∙◌, List, [], ◌∷◌, ok, >>=-eq-ok, ◌==◌, if◌then◌else◌, arith,
}
use liquid_rust.Fixpoint.Constraint.{Name}
use liquid_rust.Typeck.Builder.{Node, Nodes, push_back, push_at, push_in}

-- How often a tree binds a name
abbrev mutual
  pub binds : Name → Node → ℕ
  binds x (Node.conj ns) = binds_in x ns
  binds x (Node.for_all y s p ns) = (if y == x then 1 else 0) + binds_in x ns
  binds x (Node.guard e ns) = binds_in x ns
  binds x (Node.head p) = 0

  pub binds_in : Name → Nodes → ℕ
  binds_in x Nodes.nil = 0
  binds_in x (Nodes.cons n ns) = binds x n + binds_in x ns

module _ (x : Name) where
  push_back-binds :
      (ns : Nodes) (new : Node) → binds_in x (push_back ns new).0 ≡ binds_in x ns + binds x new
  push_back-binds Nodes.nil new = omega arith
  push_back-binds (Nodes.cons n ns) new = omega (arith, push_back-binds ns new)

  -- A pushed node adds what it binds.
  mutual
    unfolding push_at push_in

    pub push_at-binds :
        (n : Node) (path : List ℕ) (new n' : Node) (i : ℕ)
        → push_at n path new ≡ ok (n', i)
        → binds x n' ≡ binds x n + binds x new
    push_at-binds (Node.conj ns) [] new n' i h =
        let e : Node.conj (push_back ns new).0 ≡ n' = cc in
        sym (ap (binds x) e) ∙ push_back-binds ns new
    push_at-binds (Node.conj ns) (k ∷ path) new n' i h =
        let ((ns', j), h1, h2) =
          >>=-eq-ok (push_in ns k path new) (λ (ns', i). ok (Node.conj ns', i)) h in
        let e : Node.conj ns' ≡ n' = cc in
        sym (ap (binds x) e) ∙ push_in-binds ns k path new ns' j h1
    push_at-binds (Node.for_all y s p ns) [] new n' i h =
        let e : Node.for_all y s p (push_back ns new).0 ≡ n' = cc in
        sym (ap (binds x) e) ∙ omega (arith, push_back-binds ns new)
    push_at-binds (Node.for_all y s p ns) (k ∷ path) new n' i h =
        let ((ns', j), h1, h2) =
          >>=-eq-ok (push_in ns k path new) (λ (ns', i). ok (Node.for_all y s p ns', i)) h in
        let e : Node.for_all y s p ns' ≡ n' = cc in
        sym (ap (binds x) e) ∙ omega (arith, push_in-binds ns k path new ns' j h1)
    push_at-binds (Node.guard g ns) [] new n' i h =
        let e : Node.guard g (push_back ns new).0 ≡ n' = cc in
        sym (ap (binds x) e) ∙ push_back-binds ns new
    push_at-binds (Node.guard g ns) (k ∷ path) new n' i h =
        let ((ns', j), h1, h2) =
          >>=-eq-ok (push_in ns k path new) (λ (ns', i). ok (Node.guard g ns', i)) h in
        let e : Node.guard g ns' ≡ n' = cc in
        sym (ap (binds x) e) ∙ push_in-binds ns k path new ns' j h1
    push_at-binds (Node.head p) path new n' i h = cc

    push_in-binds :
        (ns : Nodes) (k : ℕ) (path : List ℕ) (new : Node) (ns' : Nodes) (i : ℕ)
        → push_in ns k path new ≡ ok (ns', i)
        → binds_in x ns' ≡ binds_in x ns + binds x new
    push_in-binds Nodes.nil k path new ns' i h = cc
    push_in-binds (Nodes.cons n ns) zero path new ns' i h =
        let ((n', j), h1, h2) =
          >>=-eq-ok (push_at n path new) (λ (n', i). ok (Nodes.cons n' ns, i)) h in
        let e : Nodes.cons n' ns ≡ ns' = cc in
        sym (ap (binds_in x) e) ∙ omega (arith, push_at-binds n path new n' j h1)
    push_in-binds (Nodes.cons n ns) (suc k) path new ns' i h =
        let ((ms, j), h1, h2) =
          >>=-eq-ok (push_in ns k path new) (λ (ns', i). ok (Nodes.cons n ns', i)) h in
        let e : Nodes.cons n ms ≡ ns' = cc in
        sym (ap (binds_in x) e) ∙ omega (arith, push_in-binds ns k path new ms j h1)
