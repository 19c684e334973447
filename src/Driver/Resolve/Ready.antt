-- ===== src/Driver/Resolve/Ready.antt =====
-- What the functions of liquid-rust-driver/src/resolve.rs on types ask of the state, and what they keep.
use liquid_rust.Base.{ℕ, ◌≤◌, ◌<◌, some, ℕ_discrete, find, ◌≡◌, refl, sym, ap, ◌∙◌, subst}
use liquid_rust.Typeck.Ty.{Symbol, ParamTy}
use liquid_rust.Driver.Hir as Hir
use liquid_rust.Driver.Collect.{NameResTable}
use liquid_rust.Driver.Resolve.{Setting, Scope}
use liquid_rust.Driver.Resolve.Closed.{Below, Bounds}
use liquid_rust.Driver.Resolve.Exprs.{Reads}

-- What the code asks of a resolution: a type parameter is one of those inserted before, and the name
-- stands for a type.
abbrev pub Resolvable : {E T : Type 0} → Setting E T → T → Hir.Res → Type 0
Resolvable c types (Hir.Res.ty_param did) = (p : ParamTy) × (c.types.get types did ≡ some p)
Resolvable c types Hir.Res.other = ⊥
Resolvable c types _ = Unit

-- The state reads as before.
pub record Kept {E T : Type 0} (c : Setting E T) (x x' : Scope E T) : Type 0 where
  pub name_gen : x'.name_gen ≡ x.name_gen
  pub vars : (y : Symbol) → c.exprs.get x'.subst.exprs y ≡ c.exprs.get x.subst.exprs y
  pub regions : x'.subst.regions ≡ x.subst.regions
  pub types : x'.subst.types ≡ x.subst.types

-- The names of the state stand for variables and locations in bounds, and the table's for types.
pub record Ready {E T : Type 0} (c : Setting E T) (table : NameResTable) (b : Bounds)
    (x : Scope E T) : Type 0 where
  pub vars : Reads c (Below b.n) x
  pub regions :
      (y : Symbol) (m : ℕ) → find ℕ_discrete x.subst.regions y ≡ some m → (b.lo ≤ m) × (m < b.hi)
  pub paths :
      (y : Symbol) (res : Hir.Res)
      → find ℕ_discrete table y ≡ some res
      → Resolvable c x.subst.types res

module _ {E T : Type 0} (c : Setting E T) where
  pub Kept-self : (x : Scope E T) → Kept c x x
  Kept-self x = record { name_gen = refl; vars = λ y. refl; regions = refl; types = refl }

  pub Kept-trans : {x y z : Scope E T} → Kept c x y → Kept c y z → Kept c x z
  Kept-trans h k = record {
    name_gen = k.name_gen ∙ h.name_gen;
    vars = λ s. k.vars s ∙ h.vars s;
    regions = k.regions ∙ h.regions;
    types = k.types ∙ h.types;
  }

  pub Kept-of : {x x' : Scope E T} → x ≡ x' → Kept c x x'
  Kept-of {x} e = subst (Kept c x) e (Kept-self x)

  pub Ready-Kept :
      {table : NameResTable} {b : Bounds} {x x' : Scope E T}
      → Ready c table b x
      → Kept c x x'
      → Ready c table b x'
  Ready-Kept {x} r k = record {
    vars = λ y v e. r.vars y v (sym (k.vars y) ∙ e);
    regions = λ y m e. r.regions y m (ap (λ t. find ℕ_discrete t y) (sym k.regions) ∙ e);
    paths = λ y res e. subst (λ t. Resolvable c t res) (sym k.types) (r.paths y res e);
  }
