-- ===== src/Typeck/Builder/Along.antt =====
-- What holds at the place of a cursor: under the binders and guards on the path to its node,
-- liquid-rust-typeck/src/constraint_builder.rs.
use liquid_rust.Base.{ℕ, zero, suc, List, [], ◌∷◌}
use liquid_rust.Typeck.Ty.Meaning.{Structure, Env, bind, eval, HoldsPred}
use liquid_rust.Typeck.Builder.{Node, Nodes}

module _ (M : Structure) (ν : M.Value) where
  abbrev pub Assertion : Type 1
  Assertion = Env M → Type 0

  -- `Q` where the children of the node at a path stand; a path that leads nowhere says nothing.
  abbrev mutual
    pub Along : Node → List ℕ → Env M → Assertion → Type 0
    Along (Node.conj ns) [] ρ Q = Q ρ
    Along (Node.conj ns) (k ∷ path) ρ Q = AlongIn ns k path ρ Q
    Along (Node.for_all x s p ns) [] ρ Q =
        (v : M.Value) → M.HasSort s v → HoldsPred M ν (bind M ρ x v) p → Q (bind M ρ x v)
    Along (Node.for_all x s p ns) (k ∷ path) ρ Q =
        (v : M.Value)
        → M.HasSort s v
        → HoldsPred M ν (bind M ρ x v) p
        → AlongIn ns k path (bind M ρ x v) Q
    Along (Node.guard e ns) [] ρ Q = M.IsTrue (eval M ν ρ e) → Q ρ
    Along (Node.guard e ns) (k ∷ path) ρ Q = M.IsTrue (eval M ν ρ e) → AlongIn ns k path ρ Q
    Along (Node.head p) path ρ Q = Q ρ

    pub AlongIn : Nodes → ℕ → List ℕ → Env M → Assertion → Type 0
    AlongIn Nodes.nil k path ρ Q = Unit
    AlongIn (Nodes.cons n ns) zero path ρ Q = Along n path ρ Q
    AlongIn (Nodes.cons n ns) (suc k) path ρ Q = AlongIn ns k path ρ Q

  module _ {Q R S : Assertion} (f : (ρ : Env M) → Q ρ → R ρ → S ρ) where
    mutual
      pub Along-zip :
          (n : Node) (path : List ℕ) (ρ : Env M)
          → Along n path ρ Q
          → Along n path ρ R
          → Along n path ρ S
      Along-zip (Node.conj ns) [] ρ q r = f ρ q r
      Along-zip (Node.conj ns) (k ∷ path) ρ q r = AlongIn-zip ns k path ρ q r
      Along-zip (Node.for_all x s p ns) [] ρ q r =
          λ v hv hp. f (bind M ρ x v) (q v hv hp) (r v hv hp)
      Along-zip (Node.for_all x s p ns) (k ∷ path) ρ q r =
          λ v hv hp. AlongIn-zip ns k path (bind M ρ x v) (q v hv hp) (r v hv hp)
      Along-zip (Node.guard e ns) [] ρ q r = λ t. f ρ (q t) (r t)
      Along-zip (Node.guard e ns) (k ∷ path) ρ q r = λ t. AlongIn-zip ns k path ρ (q t) (r t)
      Along-zip (Node.head p) path ρ q r = f ρ q r

      AlongIn-zip :
          (ns : Nodes) (k : ℕ) (path : List ℕ) (ρ : Env M)
          → AlongIn ns k path ρ Q
          → AlongIn ns k path ρ R
          → AlongIn ns k path ρ S
      AlongIn-zip Nodes.nil k path ρ q r = tt
      AlongIn-zip (Nodes.cons n ns) zero path ρ q r = Along-zip n path ρ q r
      AlongIn-zip (Nodes.cons n ns) (suc k) path ρ q r = AlongIn-zip ns k path ρ q r

  pub Along-map :
      {Q R : Assertion} (f : (ρ : Env M) → Q ρ → R ρ) (n : Node) (path : List ℕ) (ρ : Env M)
      → Along n path ρ Q
      → Along n path ρ R
  Along-map f n path ρ q = Along-zip (λ ρ x _. f ρ x) n path ρ q q

  module _ {Q : Assertion} (f : (ρ : Env M) → Q ρ) where
    mutual
      pub Along-pure : (n : Node) (path : List ℕ) (ρ : Env M) → Along n path ρ Q
      Along-pure (Node.conj ns) [] ρ = f ρ
      Along-pure (Node.conj ns) (k ∷ path) ρ = AlongIn-pure ns k path ρ
      Along-pure (Node.for_all x s p ns) [] ρ = λ v hv hp. f (bind M ρ x v)
      Along-pure (Node.for_all x s p ns) (k ∷ path) ρ =
          λ v hv hp. AlongIn-pure ns k path (bind M ρ x v)
      Along-pure (Node.guard e ns) [] ρ = λ t. f ρ
      Along-pure (Node.guard e ns) (k ∷ path) ρ = λ t. AlongIn-pure ns k path ρ
      Along-pure (Node.head p) path ρ = f ρ

      AlongIn-pure : (ns : Nodes) (k : ℕ) (path : List ℕ) (ρ : Env M) → AlongIn ns k path ρ Q
      AlongIn-pure Nodes.nil k path ρ = tt
      AlongIn-pure (Nodes.cons n ns) zero path ρ = Along-pure n path ρ
      AlongIn-pure (Nodes.cons n ns) (suc k) path ρ = AlongIn-pure ns k path ρ
