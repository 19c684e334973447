-- ===== src/Typeck/Builder/Keeps.antt =====
-- The operations of a cursor only add obligations, liquid-rust-typeck/src/constraint_builder.rs.
use liquid_rust.Base.{
  ℕ, zero, suc, ◌≡◌, refl, subst, List, ◌∷◌, true, false, Outcome, ok, reported, panicked, ◌>>=◌,
  ◌>>◌, assert, >>=-eq-ok, Bool-cases, inl, inr, ℕ_discrete, [], ◌++◌, ◌≤◌, ◌<◌, ◌+◌, ◌==◌, ◌⊎◌,
  ltb, sym, ap, ◌∙◌, arith, if◌then◌else◌,
}
use liquid_rust.Fixpoint.Constraint.{Name, Sort, BinOp}
use liquid_rust.Typeck.Ty.{
  Var, Expr, Pred, Ty, BaseTy, Tys, DefId, base_sort, subst_pred, is_true_pred, Loc-discrete,
}
use liquid_rust.Typeck.Builder.{
  Node, Nodes, Cursor, push_at, push_node, push_var, push_forall, push_head, unpack, fresh_name,
  resume, is_head,
}
use liquid_rust.Typeck.Ty.Meaning.{Structure, Env}
use liquid_rust.Typeck.Builder.Translate.Closed.{HoldsNode}
use liquid_rust.Typeck.Builder.Along.{Assertion, Along}
use liquid_rust.Typeck.Builder.Implies.{Pushed, push_at-Pushed}
use liquid_rust.Typeck.Builder.Names.{binds, push_at-binds}
use liquid_rust.Typeck.Builder.Subtyping.{
  Variance, Call, is_trivial, substs_length, polymorphic_subtyping, substs_subtyping, bty_subtyping,
  unpacked_subtyping, trivial_subtyping, subtyping, ParamTy-discrete,
}

-- From `c` to `c'` a name that was generated before is bound as often as before, a name that is not
-- generated yet is not bound anew, and no name gets more than one new binder.
pub record Names (c c' : Cursor) (x : Name) : Type 0 where
  pub old : x < c.name_gen → binds x c'.root ≡ binds x c.root
  pub unborn : c'.name_gen ≤ x → binds x c'.root ≡ binds x c.root
  pub once : binds x c'.root ≤ binds x c.root + 1

-- From `c` to `c'` no obligation is lost, every place keeps its binders and guards, the generator of
-- names does not go back, and no name is bound twice.
pub record Keeps (c c' : Cursor) : Type 1 where
  pub implies :
      (M : Structure) (ν : M.Value) (ρ : Env M) → HoldsNode M ν ρ c'.root → HoldsNode M ν ρ c.root
  pub grows :
      (M : Structure) (ν : M.Value) (q : List ℕ) (ρ : Env M) (Q : Assertion M ν)
      → Along M ν c'.root q ρ Q
      → Along M ν c.root q ρ Q
  pub fresh : c.name_gen ≤ c'.name_gen
  pub names : (x : Name) → Names c c' x

below-cases : (m n : ℕ) → (m < n) ⊎ (n ≤ m)
below-cases m n = elim (Bool-cases (ltb m n)) [
  | inl e ↦ inl (ground arith)
  | inr e ↦ inr (ground arith)
]

Names-same : (c c' : Cursor) (x : Name) → binds x c'.root ≡ binds x c.root → Names c c' x
Names-same c c' x h = record { old = λ _. h; unborn = λ _. h; once = omega arith }

Names-trans :
    (c c' c'' : Cursor) (x : Name)
    → c.name_gen ≤ c'.name_gen
    → c'.name_gen ≤ c''.name_gen
    → Names c c' x
    → Names c' c'' x
    → Names c c'' x
Names-trans c c' c'' x a b h k = record {
  old = λ l. k.old (omega arith) ∙ h.old l;
  unborn = λ l. k.unborn l ∙ h.unborn (omega arith);
  once = elim (below-cases x c'.name_gen) [
    | inl l ↦ let e = k.old l in let e' = h.once in omega arith
    | inr l ↦ let e = h.unborn l in let e' = k.once in omega arith
  ];
}

pub Keeps-refl : (c : Cursor) → Keeps c c
Keeps-refl c = record {
  implies = λ M ν ρ h. h;
  grows = λ M ν q ρ Q h. h;
  fresh = omega arith;
  names = λ x. Names-same c c x refl;
}

pub Keeps-trans : {c c' c'' : Cursor} → Keeps c c' → Keeps c' c'' → Keeps c c''
Keeps-trans {c} {c'} {c''} h k = record {
  implies = λ M ν ρ x. h.implies M ν ρ (k.implies M ν ρ x);
  grows = λ M ν q ρ Q x. h.grows M ν q ρ Q (k.grows M ν q ρ Q x);
  fresh = let a = h.fresh in let b = k.fresh in omega arith;
  names = λ x. Names-trans c c' c'' x h.fresh k.fresh (h.names x) (k.names x);
}

-- A cursor with the tree and the name generator of `c`.
pub Keeps-same : (c c' : Cursor) → c.root ≡ c'.root → c.name_gen ≤ c'.name_gen → Keeps c c'
Keeps-same c c' h k = record {
  implies = λ M ν ρ. subst (λ r. HoldsNode M ν ρ r → HoldsNode M ν ρ c.root) h (λ x. x);
  grows = λ M ν q ρ Q. subst (λ r. Along M ν r q ρ Q → Along M ν c.root q ρ Q) h (λ x. x);
  fresh = k;
  names = λ x. Names-same c c' x (sym (ap (binds x) h));
}

-- `m`, if it gives a cursor, keeps the obligations of `c`.
abbrev KeepsBy : Cursor → Outcome Cursor → Type 1
KeepsBy c m = (c' : Cursor) → m ≡ ok c' → Keeps c c'

KeepsBy-ok : (c c₁ : Cursor) → Keeps c c₁ → KeepsBy c (ok c₁)
KeepsBy-ok c c₁ k c' h = let r : c₁ ≡ c' = cc in subst (Keeps c) r k

KeepsBy-bind :
    (c : Cursor) (m : Outcome Cursor) (f : Cursor → Outcome Cursor)
    → KeepsBy c m
    → ((c₁ : Cursor) → KeepsBy c₁ (f c₁))
    → KeepsBy c (m >>= f)
KeepsBy-bind c m f k l c' h =
    let (c₁, h1, h2) = >>=-eq-ok m f h in Keeps-trans (k c₁ h1) (l c₁ c' h2)

KeepsBy-map :
    (c : Cursor) (m : Outcome Cursor) (f : Cursor → Cursor)
    → KeepsBy c m
    → ((c₁ : Cursor) → Keeps c c₁ → Keeps c (f c₁))
    → KeepsBy c (m >>= λ c₁. ok (f c₁))
KeepsBy-map c m f k l c' h =
    let (c₁, h1, h2) = >>=-eq-ok m (λ c₁. ok (f c₁)) h in
    let r : f c₁ ≡ c' = cc in subst (Keeps c) r (l c₁ (k c₁ h1))

KeepsBy-panic : (c : Cursor) → KeepsBy c panicked
KeepsBy-panic c c' h = cc

KeepsBy-assert :
    {P : Type 0} (c : Cursor) (d : Dec P) (m : Outcome Cursor)
    → KeepsBy c m
    → KeepsBy c (assert d >> m)
KeepsBy-assert c (yes _) m k = k
KeepsBy-assert c (no _) m k = KeepsBy-panic c

pub ok-cursor : {x y : Cursor} → ok x ≡ ok y → x ≡ y
ok-cursor h = cc

ok-root : {x y : Cursor} → ok x ≡ ok y → x.root ≡ y.root
ok-root h = cc

ok-name_gen : {x y : Cursor} → ok x ≡ ok y → x.name_gen ≡ y.name_gen
ok-name_gen h = cc

ok-node : {x y : Cursor} → ok x ≡ ok y → x.node ≡ y.node
ok-node h = cc

-- What `push_node` does to the tree and the generator.
pub push_node-Pushed :
    (c : Cursor) (new : Node) (c' : Cursor)
    → push_node c new ≡ ok c'
    → (i : ℕ) × ((M : Structure) (ν : M.Value) → Pushed M ν c.root c.node new c'.root i)
      × ((x : Name) → binds x c'.root ≡ binds x c.root + binds x new)
      × (c.name_gen ≡ c'.name_gen)
      × ((if is_head new then c.node else c.node ++ (i ∷ [])) ≡ c'.node)
unfolding push_node
push_node-Pushed c new c' h =
    let ((root', i), h1, h2) = >>=-eq-ok (push_at c.root c.node new) _ h in
    (
      i,
      λ M ν.
          subst (λ r. Pushed M ν c.root c.node new r i) (ok-root h2)
            (push_at-Pushed M ν c.root c.node new root' i h1),
      λ x. sym (ap (binds x) (ok-root h2)) ∙ push_at-binds x c.root c.node new root' i h1,
      ok-name_gen h2,
      ok-node h2,
    )

-- A node that binds nothing
pub push_node-KeepsBy :
    (c : Cursor) (new : Node) → ((x : Name) → binds x new ≡ 0) → KeepsBy c (push_node c new)
push_node-KeepsBy c new none_bound c' h =
    let (i, k, b, e, _) = push_node-Pushed c new c' h in
    record {
      implies = λ M ν. (k M ν).implies;
      grows = λ M ν. (k M ν).grows;
      fresh = omega arith;
      names = λ x. let b' = b x in let z = none_bound x in Names-same c c' x (omega arith);
    }

fresh-Names :
    (c c' : Cursor) (x : Name)
    → suc c.name_gen ≡ c'.name_gen
    → binds x c'.root ≡ binds x c.root + ((if c.name_gen == x then 1 else 0) + 0)
    → Names c c' x
fresh-Names c c' x e b = record {
  old = λ l. ground arith;
  unborn = λ l. ground arith;
  once = ground arith;
}

-- A binder of a fresh name
pub push_fresh-KeepsBy :
    (c : Cursor) (s : Sort) (p : Pred)
    → KeepsBy c (push_node (fresh_name c).1 (Node.for_all c.name_gen s p Nodes.nil))
unfolding fresh_name
push_fresh-KeepsBy c s p c' h =
    let (i, k, b, e, _) =
      push_node-Pushed (fresh_name c).1 (Node.for_all c.name_gen s p Nodes.nil) c' h in
    record {
      implies = λ M ν. (k M ν).implies;
      grows = λ M ν. (k M ν).grows;
      fresh = omega arith;
      names = λ x. fresh-Names c c' x (omega arith) (b x);
    }

pub push_forall-KeepsBy :
    (c : Cursor) (s : Sort) (p : Pred) → KeepsBy c (push_forall (fresh_name c).1 c.name_gen s p)
unfolding push_forall push_var
push_forall-KeepsBy c s p =
    KeepsBy-bind c (push_node (fresh_name c).1 (Node.for_all c.name_gen s p Nodes.nil)) _
      (push_fresh-KeepsBy c s p)
      (λ c₁.
        KeepsBy-ok c₁ (push_var c₁ c.name_gen s)
          (Keeps-same c₁ (push_var c₁ c.name_gen s) refl (omega arith)))

pub push_head-KeepsBy : (c : Cursor) (p : Pred) → KeepsBy c (push_head c p)
unfolding push_head
push_head-KeepsBy c p = elim (Bool-cases (is_true_pred p)) [
  | inl e ↦ rw e (KeepsBy-ok c c (Keeps-refl c))
  | inr e ↦ rw e (push_node-KeepsBy c (Node.head p) (λ x. refl))
]

KeepsBy-then :
    (c : Cursor) (m : Outcome Cursor) (ty : Ty) (f : Ty × Cursor → Outcome Cursor)
    → KeepsBy c m
    → ((c₁ : Cursor) → KeepsBy c₁ (f (ty, c₁)))
    → KeepsBy c (m >>= (λ c₁. ok (ty, c₁)) >>= f)
KeepsBy-then c (ok c₁) ty f k l c' h = Keeps-trans (k c₁ refl) (l c₁ c' h)
KeepsBy-then c reported ty f k l c' h = cc
KeepsBy-then c panicked ty f k l c' h = cc

-- The step that unpacks a type, and what is done with the unpacked type.
pub unpack-KeepsBy :
    (c : Cursor) (ty : Ty) (f : Ty × Cursor → Outcome Cursor)
    → ((ty' : Ty) (c₁ : Cursor) → KeepsBy c₁ (f (ty', c₁)))
    → KeepsBy c (unpack c ty >>= f)
unfolding unpack fresh_name
unpack-KeepsBy c (Ty.exists bty p) f k =
    let x = Expr.var (Var.free c.name_gen) in
    let pushed = push_forall (fresh_name c).1 c.name_gen (base_sort bty) (subst_pred p x) in
    KeepsBy-then c pushed (Ty.refine bty x) f
      (push_forall-KeepsBy c (base_sort bty) (subst_pred p x)) (k (Ty.refine bty x))
unpack-KeepsBy c ty f k = k ty c

abbrev KeepsCall : Call → Type 1
KeepsCall call = (c : Cursor) (ty1 ty2 : Ty) → KeepsBy c (call c ty1 ty2)

module _ (call : Call) (keeps : KeepsCall call) where
  polymorphic_subtyping-KeepsBy :
      (c : Cursor) (v : Variance) (ty1 ty2 : Ty)
      → KeepsBy c (polymorphic_subtyping call c v ty1 ty2)
  unfolding polymorphic_subtyping
  polymorphic_subtyping-KeepsBy c Variance.covariant ty1 ty2 = keeps c ty1 ty2
  polymorphic_subtyping-KeepsBy c Variance.invariant ty1 ty2 =
      KeepsBy-bind c (call c ty1 ty2) (λ c₁. call c₁ ty2 ty1) (keeps c ty1 ty2)
        (λ c₁. keeps c₁ ty2 ty1)
  polymorphic_subtyping-KeepsBy c Variance.contravariant ty1 ty2 = keeps c ty2 ty1
  polymorphic_subtyping-KeepsBy c Variance.bivariant ty1 ty2 = KeepsBy-ok c c (Keeps-refl c)

  substs_subtyping-KeepsBy :
      (c : Cursor) (vs : List Variance) (tys1 tys2 : Tys)
      → KeepsBy c (substs_subtyping call c vs tys1 tys2)
  unfolding substs_subtyping
  substs_subtyping-KeepsBy c (v ∷ vs) (Tys.cons ty1 tys1) (Tys.cons ty2 tys2) =
      KeepsBy-bind c (polymorphic_subtyping call c v ty1 ty2)
        (λ c₁. substs_subtyping call c₁ vs tys1 tys2) (polymorphic_subtyping-KeepsBy c v ty1 ty2)
        (λ c₁. substs_subtyping-KeepsBy c₁ vs tys1 tys2)
  substs_subtyping-KeepsBy c _ _ _ = KeepsBy-ok c c (Keeps-refl c)

  module _ (variances_of : DefId → List Variance) where
    bty_subtyping-KeepsBy :
        (c : Cursor) (bty1 bty2 : BaseTy) → KeepsBy c (bty_subtyping variances_of call c bty1 bty2)
    unfolding bty_subtyping
    bty_subtyping-KeepsBy c (BaseTy.int i1) (BaseTy.int i2) =
        KeepsBy-assert c (ℕ_discrete i1 i2) (ok c) (KeepsBy-ok c c (Keeps-refl c))
    bty_subtyping-KeepsBy c (BaseTy.uint i1) (BaseTy.uint i2) =
        KeepsBy-assert c (ℕ_discrete i1 i2) (ok c) (KeepsBy-ok c c (Keeps-refl c))
    bty_subtyping-KeepsBy c BaseTy.bool BaseTy.bool = KeepsBy-ok c c (Keeps-refl c)
    bty_subtyping-KeepsBy c (BaseTy.adt did1 substs1) (BaseTy.adt did2 substs2) =
        KeepsBy-assert c (ℕ_discrete did1 did2) _ (
          KeepsBy-assert c (ℕ_discrete (substs_length substs1) (substs_length substs2)) _
            (substs_subtyping-KeepsBy c (variances_of did1) substs1 substs2))
    bty_subtyping-KeepsBy c _ _ = KeepsBy-panic c

    unpacked_subtyping-KeepsBy :
        (c : Cursor) (ty1 ty2 : Ty) → KeepsBy c (unpacked_subtyping variances_of call c ty1 ty2)
    unfolding unpacked_subtyping
    unpacked_subtyping-KeepsBy c (Ty.refine bty1 e1) (Ty.refine bty2 e2) =
        KeepsBy-bind c (bty_subtyping variances_of call c bty1 bty2) _
          (bty_subtyping-KeepsBy c bty1 bty2)
          (λ c₁. push_head-KeepsBy c₁ (Pred.expr (Expr.binary_op BinOp.eq e1 e2)))
    unpacked_subtyping-KeepsBy c (Ty.refine bty1 e) (Ty.exists bty2 p) =
        KeepsBy-bind c (bty_subtyping variances_of call c bty1 bty2) _
          (bty_subtyping-KeepsBy c bty1 bty2)
          (λ c₁. push_head-KeepsBy c₁ (subst_pred (subst_pred p e) e))
    unpacked_subtyping-KeepsBy c (Ty.strg_ref loc1) (Ty.strg_ref loc2) =
        KeepsBy-assert c (Loc-discrete loc1 loc2) (ok c) (KeepsBy-ok c c (Keeps-refl c))
    unpacked_subtyping-KeepsBy c (Ty.param p1) (Ty.param p2) =
        KeepsBy-assert c (ParamTy-discrete p1 p2) (ok c) (KeepsBy-ok c c (Keeps-refl c))
    unpacked_subtyping-KeepsBy c ty Ty.uninit = KeepsBy-ok c c (Keeps-refl c)
    unpacked_subtyping-KeepsBy c _ _ = KeepsBy-panic c

    trivial_subtyping-KeepsBy :
        (c : Cursor) (ty1 ty2 : Ty) → KeepsBy c (trivial_subtyping variances_of call c ty1 ty2)
    unfolding trivial_subtyping
    trivial_subtyping-KeepsBy c (Ty.refine bty1 _) (Ty.refine bty2 _) =
        bty_subtyping-KeepsBy c bty1 bty2
    trivial_subtyping-KeepsBy c (Ty.exists bty1 _) (Ty.exists bty2 _) =
        bty_subtyping-KeepsBy c bty1 bty2
    trivial_subtyping-KeepsBy c _ _ = KeepsBy-panic c

-- The end of a snapshot.
resume-KeepsBy :
    (c : Cursor) (m : Outcome Cursor) → KeepsBy c m → KeepsBy c (m >>= λ inner. ok (resume c inner))
resume-KeepsBy c m k =
    KeepsBy-map c m (λ inner. resume c inner) k
      (λ inner h. Keeps-trans h (Keeps-same inner (resume c inner) refl (omega arith)))

-- Subtyping never loses an obligation: where it gives a cursor, the constraint tree after it implies
-- the tree before it, in every structure, under every solution and in every environment; what holds
-- at a place of the tree after it holds at that place of the tree before it; the generator of names
-- never goes back; and names that were generated before are bound as often as before, names that are
-- not generated yet are not bound anew, and no name gets more than one new binder.
pub subtyping-Keeps :
    (variances_of : DefId → List Variance) (fuel : ℕ) (c : Cursor) (ty1 ty2 : Ty) (c' : Cursor)
    → subtyping variances_of fuel c ty1 ty2 ≡ ok c'
    → Keeps c c'
unfolding subtyping
subtyping-Keeps variances_of zero c ty1 ty2 c' h = cc
subtyping-Keeps variances_of (suc fuel) c ty1 ty2 c' h =
    let call = subtyping variances_of fuel in
    let keeps : KeepsCall call = λ c ty1 ty2. subtyping-Keeps variances_of fuel c ty1 ty2 in
    resume-KeepsBy c _
      (elim (is_trivial ty1 ty2)
        as (λ b. KeepsBy c (elim b [
          | true ↦ trivial_subtyping variances_of call c ty1 ty2
          | false ↦ unpack c ty1 >>= λ (ty, c₁). unpacked_subtyping variances_of call c₁ ty ty2
        ])) [
          | true ↦ trivial_subtyping-KeepsBy call keeps variances_of c ty1 ty2
          | false ↦
              unpack-KeepsBy c ty1 (λ (ty, c₁). unpacked_subtyping variances_of call c₁ ty ty2)
                (λ ty c₁. unpacked_subtyping-KeepsBy call keeps variances_of c₁ ty ty2)
        ])
      c' h
