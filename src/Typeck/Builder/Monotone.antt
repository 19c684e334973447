-- ===== src/Typeck/Builder/Monotone.antt =====
-- The operations of a cursor that give more than a cursor keep its obligations too,
-- liquid-rust-typeck/src/constraint_builder.rs.
use liquid_rust.Base.{ℕ, ◌≡◌, refl, subst, Outcome, ok, reported, panicked, ◌>>=◌, >>=-eq-ok, arith}
use liquid_rust.Fixpoint.Constraint.{Sort}
use liquid_rust.Typeck.Ty.{Expr, Ty}
use liquid_rust.Typeck.Builder.{
  Node, Nodes, Cursor, push_guard, push_scope, unpack, fresh_kvar_at_scope, fresh_kvar,
  fresh_kvar_at_last_scope, vars_in_scope, resume,
}
use liquid_rust.Typeck.Builder.Keeps.{
  Keeps, Keeps-refl, Keeps-trans, Keeps-same, push_node-KeepsBy, unpack-KeepsBy,
}

-- The cursor in a result of `m`, if there is one, keeps the obligations of `c`.
abbrev pub KeepsVia {ℓ} : {X : Type ℓ} → (X → Cursor) → Cursor → Outcome X → Type (1 ⊔ ℓ)
KeepsVia {X} cursor c m = (x : X) → m ≡ ok x → Keeps c (cursor x)

module _ {ℓ} {X : Type ℓ} (cursor : X → Cursor) where
  pub KeepsVia-ok : (c : Cursor) (x : X) → Keeps c (cursor x) → KeepsVia cursor c (ok x)
  KeepsVia-ok c x k x' h = let r : x ≡ x' = cc in subst (λ y. Keeps c (cursor y)) r k

  pub KeepsVia-panic : (c : Cursor) → KeepsVia cursor c panicked
  KeepsVia-panic c x h = cc

  -- A step that does not touch the cursor
  pub KeepsVia-pure {κ} :
      {A : Type κ} (c : Cursor) (m : Outcome A) (f : A → Outcome X)
      → ((a : A) → KeepsVia cursor c (f a))
      → KeepsVia cursor c (m >>= f)
  KeepsVia-pure c (ok a) f k = k a
  KeepsVia-pure c reported f k = λ x h. cc
  KeepsVia-pure c panicked f k = λ x h. cc

  pub KeepsVia-bind {κ} :
      {Y : Type κ} (cursor₁ : Y → Cursor) (c : Cursor) (m : Outcome Y) (f : Y → Outcome X)
      → KeepsVia cursor₁ c m
      → ((y : Y) → KeepsVia cursor (cursor₁ y) (f y))
      → KeepsVia cursor c (m >>= f)
  KeepsVia-bind cursor₁ c m f k l x h =
      let (y, h1, h2) = >>=-eq-ok m f h in Keeps-trans (k y h1) (l y x h2)

-- A cursor alone
abbrev pub itself : Cursor → Cursor
itself c = c

-- The cursor at the end of a pair
abbrev pub second {ℓ} : {A : Type ℓ} → A × Cursor → Cursor
second (a, c) = c

abbrev pub third {ℓ κ} : {A : Type ℓ} {B : Type κ} → A × (B × Cursor) → Cursor
third (a, (b, c)) = c

pub unpack-KeepsVia : (c : Cursor) (ty : Ty) → KeepsVia second c (unpack c ty)
unpack-KeepsVia c ty (ty', c') h =
    unpack-KeepsBy c ty (λ (_, c₁). ok c₁)
      (λ ty' c₁ c₂ e. let r : c₁ ≡ c₂ = cc in subst (Keeps c₁) r (Keeps-refl c₁)) c' (rw h refl)

pub fresh_kvar_at_scope-KeepsVia :
    (c : Cursor) (s : Sort) (scope : ℕ) → KeepsVia second c (fresh_kvar_at_scope c s scope)
unfolding fresh_kvar_at_scope
fresh_kvar_at_scope-KeepsVia c s scope =
    KeepsVia-pure second c (vars_in_scope c.builder scope) _
      (λ xs. KeepsVia-ok second c _ (Keeps-same c _ refl (omega arith)))

pub fresh_kvar-KeepsVia : (c : Cursor) (s : Sort) → KeepsVia second c (fresh_kvar c s)
unfolding fresh_kvar
fresh_kvar-KeepsVia c s = fresh_kvar_at_scope-KeepsVia c s c.nvars

pub fresh_kvar_at_last_scope-KeepsVia :
    (c : Cursor) (s : Sort) → KeepsVia second c (fresh_kvar_at_last_scope c s)
unfolding fresh_kvar_at_last_scope
fresh_kvar_at_last_scope-KeepsVia c s = fresh_kvar_at_scope-KeepsVia c s _

pub push_guard-Keeps : (c : Cursor) (e : Expr) → KeepsVia itself c (push_guard c e)
unfolding push_guard
push_guard-Keeps c e = push_node-KeepsBy c (Node.guard e Nodes.nil) (λ x. refl)

pub push_scope-Keeps : (c : Cursor) → Keeps c (push_scope c)
unfolding push_scope
push_scope-Keeps c = Keeps-same c (push_scope c) refl (omega arith)

pub resume-Keeps : (c outer inner : Cursor) → Keeps c inner → Keeps c (resume outer inner)
resume-Keeps c outer inner k =
    Keeps-trans k (Keeps-same inner (resume outer inner) refl (omega arith))
