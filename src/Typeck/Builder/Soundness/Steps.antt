-- ===== src/Typeck/Builder/Soundness/Steps.antt =====
-- What the steps of a cursor, liquid-rust-typeck/src/constraint_builder.rs, prove at its place.
use liquid_rust.Base.{
  ◌≡◌, refl, sym, ◌∙◌, subst, Outcome, ok, panicked, ◌>>=◌, ◌>>◌, assert, >>=-eq-ok, Bool-cases,
  inl, inr, arith, suc, ◌≤◌,
}
use liquid_rust.Fixpoint.Constraint.{Name, Sort}
use liquid_rust.Typeck.Ty.{Pred, is_true_pred}
use liquid_rust.Typeck.Ty.Meaning.{Structure, Env, bind, HoldsPred, HoldsPred-of_is_true}
use liquid_rust.Typeck.Builder.{
  Node, Nodes, Cursor, push_node, push_var, push_forall, push_head, fresh_name, resume,
}
use liquid_rust.Typeck.Builder.Translate.Closed.{HoldsNode}
use liquid_rust.Typeck.Builder.Along.{Assertion, Along, Along-zip, Along-map, Along-pure}
use liquid_rust.Typeck.Builder.Keeps.{
  Keeps, Keeps-refl, Keeps-trans, Keeps-same, push_node-Pushed, push_node-KeepsBy,
  push_fresh-KeepsBy, ok-cursor,
}

module _ (M : Structure) (ν : M.Value) where
  -- From `c` to `c'` the cursor stays at its node, and the new tree makes `Q` hold there.
  pub record Proves (c : Cursor) (Q : Assertion M ν) (c' : Cursor) : Type 1 where
    pub keeps : Keeps c c'
    pub stays : c.node ≡ c'.node
    pub proves : (ρ : Env M) → HoldsNode M ν ρ c'.root → Along M ν c.root c.node ρ Q

  -- The same of a result, where it is a cursor.
  abbrev pub ProvesBy : Cursor → Assertion M ν → Outcome Cursor → Type 1
  ProvesBy c Q m = (c' : Cursor) → m ≡ ok c' → Proves c Q c'

  pub Proves-map :
      {c c' : Cursor} {Q R : Assertion M ν}
      → ((ρ : Env M) → Q ρ → R ρ)
      → Proves c Q c'
      → Proves c R c'
  Proves-map {c} f k = record {
    keeps = k.keeps;
    stays = k.stays;
    proves = λ ρ h. Along-map M ν f c.root c.node ρ (k.proves ρ h);
  }

  pub ProvesBy-map :
      (c : Cursor) (m : Outcome Cursor) {Q R : Assertion M ν}
      → ((ρ : Env M) → Q ρ → R ρ)
      → ProvesBy c Q m
      → ProvesBy c R m
  ProvesBy-map c m f k c' h = Proves-map f (k c' h)

  -- Nothing has to be proved for what always holds.
  pub ProvesBy-ok : (c : Cursor) (Q : Assertion M ν) → ((ρ : Env M) → Q ρ) → ProvesBy c Q (ok c)
  ProvesBy-ok c Q f c' h = subst (Proves c Q) (ok-cursor h) (record {
    keeps = Keeps-refl c;
    stays = refl;
    proves = λ ρ _. Along-pure M ν f c.root c.node ρ;
  })

  pub ProvesBy-panic : (c : Cursor) (Q : Assertion M ν) → ProvesBy c Q panicked
  ProvesBy-panic c Q c' h = cc

  -- Two steps one after the other prove both assertions.
  pub Proves-trans :
      {c c₁ c' : Cursor} {Q R S : Assertion M ν}
      → ((ρ : Env M) → Q ρ → R ρ → S ρ)
      → Proves c Q c₁
      → Proves c₁ R c'
      → Proves c S c'
  Proves-trans {c} {c₁} {R} f k l = record {
    keeps = Keeps-trans k.keeps l.keeps;
    stays = k.stays ∙ l.stays;
    proves = λ ρ h. Along-zip M ν f c.root c.node ρ (k.proves ρ (l.keeps.implies M ν ρ h)) (
        k.keeps.grows M ν c.node ρ R
          (subst (λ q. Along M ν c₁.root q ρ R) (sym k.stays) (l.proves ρ h)));
  }

  pub ProvesBy-bind :
      (c : Cursor) (m : Outcome Cursor) (next : Cursor → Outcome Cursor) {Q R S : Assertion M ν}
      → ((ρ : Env M) → Q ρ → R ρ → S ρ)
      → ProvesBy c Q m
      → ((c₁ : Cursor) → Keeps c c₁ → ProvesBy c₁ R (next c₁))
      → ProvesBy c S (m >>= next)
  ProvesBy-bind c m next f k l c' h =
      let (c₁, h1, h2) = >>=-eq-ok m next h in
      let p = k c₁ h1 in Proves-trans f p (l c₁ p.keeps c' h2)

  pub ProvesBy-assert :
      {P : Type 0} (c : Cursor) (Q : Assertion M ν) (d : Dec P) (m : Outcome Cursor)
      → (P → ProvesBy c Q m)
      → ProvesBy c Q (assert d >> m)
  ProvesBy-assert c Q (yes p) m k = k p
  ProvesBy-assert c Q (no _) m k = ProvesBy-panic c Q

  -- A pushed head is an obligation at the cursor's place.
  pub push_head-ProvesBy :
      (c : Cursor) (p : Pred) → ProvesBy c (λ ρ. HoldsPred M ν ρ p) (push_head c p)
  unfolding push_head
  push_head-ProvesBy c p = elim (Bool-cases (is_true_pred p)) [
    | inl e ↦ rw e (ProvesBy-ok c _ (λ ρ. HoldsPred-of_is_true M ν ρ p e))
    | inr e ↦ rw e (λ c' h.
        let (i, k, _, _, stays) = push_node-Pushed c (Node.head p) c' h in
        record {
          keeps = push_node-KeepsBy c (Node.head p) (λ x. refl) c' h;
          stays = stays;
          proves = (k M ν).adds;
        })
  ]

  -- What is proved below a pushed binder of a fresh name is proved for every value that it allows.
  module _ (c : Cursor) (s : Sort) (p : Pred) (next : Cursor → Outcome Cursor) where
    abbrev x : Name
    x = c.name_gen

    pub push_forall-proves :
        (Q : Assertion M ν) (c' : Cursor)
        → ((c₁ : Cursor) → Keeps c c₁ → suc x ≤ c₁.name_gen → ProvesBy c₁ Q (next c₁))
        → (push_forall (fresh_name c).1 x s p >>= next) ≡ ok c'
        → Keeps c c'
          × ((ρ : Env M)
              → HoldsNode M ν ρ c'.root
              → Along M ν c.root c.node ρ (λ ρ'.
                (v : M.Value)
                → M.HasSort s v
                → HoldsPred M ν (bind M ρ' x v) p
                → Q (bind M ρ' x v)))
    unfolding push_forall push_var fresh_name
    push_forall-proves Q c' l h =
        let new = Node.for_all x s p Nodes.nil in
        let (c₂, h2, h3) = >>=-eq-ok (push_forall (fresh_name c).1 x s p) next h in
        let (c₁, h0, h1) =
          >>=-eq-ok (push_node (fresh_name c).1 new) (λ c'. ok (push_var c' x s)) h2 in
        let (i, k, _, grown, moves) = push_node-Pushed (fresh_name c).1 new c₁ h0 in
        let start = push_var c₁ x s in
        let kept =
          Keeps-trans (push_fresh-KeepsBy c s p c₁ h0) (Keeps-same c₁ start refl (omega arith)) in
        let r =
          l start kept (omega arith) c' (subst (λ d. next d ≡ ok c') (sym (ok-cursor h1)) h3) in
        (
          Keeps-trans kept r.keeps,
          λ ρ holds.
              (k M ν).reaches ρ Q
                (subst (λ q. Along M ν c₁.root q ρ Q) (sym moves) (r.proves ρ holds)),
        )

  -- The end of a snapshot.
  pub resume-Proves :
      (c inner : Cursor) (Q : Assertion M ν)
      → Keeps c inner
      → ((ρ : Env M) → HoldsNode M ν ρ inner.root → Along M ν c.root c.node ρ Q)
      → Proves c Q (resume c inner)
  resume-Proves c inner Q k f = record {
    keeps = Keeps-trans k (Keeps-same inner (resume c inner) refl (omega arith));
    stays = refl;
    proves = f;
  }
