-- ===== src/Typeck/Builder/Translate/Args.antt =====
-- The translation of expressions and of the arguments of unknown predicates.
use liquid_rust.Base.{
  ℕ, ◌+◌, ◌<◌, ◌≤◌, ◌≡◌, refl, sym, ◌∙◌, List, [], ◌∷◌, ◌++◌, map, length, All, Returns, returns,
  Returns-bind, arith,
}
use liquid_rust.Fixpoint.Constraint as Fixpoint
use liquid_rust.Fixpoint.Constraint.{Name, Kvid, Sort, BinOp, Constraint}
use liquid_rust.Typeck.Ty.{Var, Expr}
use liquid_rust.Typeck.Ty.Meaning.{Structure, Env, bind, eval, eval_fixpoint}
use liquid_rust.Typeck.Builder.Translate.{
  Binding, expr_to_fixpoint, arg_to_fixpoint, args_to_fixpoint,
}
use liquid_rust.Typeck.Builder.Translate.Closed.{ExprClosed, ArgsSorted}
use liquid_rust.Typeck.Builder.Agree.{
  Agree, bind_self, bind-Agree, Agree-trans, eval-Agree, ExprClosed-ExprBelow,
}

module _ (M : Structure) (ν : M.Value) where
  pub expr_to_fixpoint-Returns :
      (g : ℕ) (e : Expr)
      → ExprClosed g e
      → Returns (λ e'. (ρ : Env M) → eval_fixpoint M ρ e' ≡ eval M ν ρ e) (expr_to_fixpoint e)
  unfolding expr_to_fixpoint eval eval_fixpoint
  expr_to_fixpoint-Returns g (Expr.var Var.bound) h = absurd h
  expr_to_fixpoint-Returns g (Expr.var (Var.free x)) h = returns (λ ρ. refl)
  expr_to_fixpoint-Returns g (Expr.constant c) h = returns (λ ρ. refl)
  expr_to_fixpoint-Returns g (Expr.binary_op op e1 e2) h =
      Returns-bind (expr_to_fixpoint-Returns g e1 h.0) λ e1' p1.
        Returns-bind (expr_to_fixpoint-Returns g e2 h.1)
          λ e2' p2. returns (λ ρ. rw (p1 ρ, p2 ρ, eval_fixpoint))
  expr_to_fixpoint-Returns g (Expr.unary_op op e) h =
      Returns-bind (expr_to_fixpoint-Returns g e h) λ e' p. returns (λ ρ. rw (p ρ, eval_fixpoint))

  -- The constraint under the binders of a list of bindings.
  abbrev pub Under : List Binding → Env M → (Env M → Type 0) → Type 0
  Under [] ρ K = K ρ
  Under ((x, s, e) ∷ bs) ρ K =
      (v : M.Value)
      → M.HasSort s v
      → M.IsTrue (eval_fixpoint M (bind M ρ x v) e)
      → Under bs (bind M ρ x v) K

  -- What is known of a list of arguments once it is translated, for an environment `ρ₀` in which the
  -- arguments are read and one `ρ` that agrees with it: the bindings force the names to stand for
  -- the arguments' values.
  pub record Translated (g gen : ℕ) (ρ₀ : Env M) (args : List Expr) (sorts : List Sort)
      (xs : List Name) (bs : List Binding) : Type 1 where
    pub use_at :
        (ρ : Env M) (K : Env M → Type 0)
        → Agree M g ρ₀ ρ
        → ArgsSorted M ν ρ₀ args sorts
        → Under bs ρ K
        → (ρ' : Env M) × Agree M gen ρ ρ' × (map ρ' xs ≡ map (eval M ν ρ₀) args) × K ρ'
    pub build :
        (ρ : Env M) (K : Env M → Type 0)
        → Agree M g ρ₀ ρ
        → ((ρ' : Env M) → Agree M gen ρ ρ' → map ρ' xs ≡ map (eval M ν ρ₀) args → K ρ')
        → Under bs ρ K

  -- One more argument in front, translated to the name `x` and the bindings `bs`.
  abbrev Extends : ℕ → ℕ → ℕ → Env M → Expr → Sort → Name → List Binding → Type 1
  Extends g gen gen₁ ρ₀ arg s x bs =
      (args : List Expr) (sorts : List Sort) (xs : List Name) (cs : List Binding)
      → Translated g gen₁ ρ₀ args sorts xs cs
      → Translated g gen ρ₀ (arg ∷ args) (s ∷ sorts) (x ∷ xs) (bs ++ cs)

  -- A variable adds no binding.
  variable-Extends :
      (g gen : ℕ) (ρ₀ : Env M) (s : Sort) (x : Name)
      → x < g
      → g ≤ gen
      → Extends g gen gen ρ₀ (Expr.var (Var.free x)) s x []
  unfolding eval
  variable-Extends g gen ρ₀ s x lt le args sorts xs cs t = record {
    use_at = λ ρ K a sorted u.
        let (ρ', b, e, k) = t.use_at ρ K a sorted.1 u in (ρ', b, cc (b x (omega arith), a x lt), k);
    build = λ ρ K a k. t.build ρ K a λ ρ' b e. k ρ' b (cc (b x (omega arith), a x lt));
  }

  -- Any other argument is equal to a fresh name.
  fresh-Extends :
      (g gen : ℕ) (ρ₀ : Env M) (s : Sort) (arg : Expr) (e : Fixpoint.Expr)
      → ExprClosed g arg
      → g ≤ gen
      → ((ρ : Env M) → eval_fixpoint M ρ e ≡ eval M ν ρ arg)
      → Extends g gen
          (gen + 1)
          ρ₀
          arg
          s
          gen
          ((gen, s, Fixpoint.Expr.binary_op BinOp.eq (Fixpoint.Expr.var gen) e) ∷ [])
  unfolding eval_fixpoint
  fresh-Extends g gen ρ₀ s arg e closed le same args sorts xs cs t =
      let value : (ρ : Env M) (v : M.Value)
          → Agree M g ρ₀ ρ
          → eval_fixpoint M (bind M ρ gen v) e ≡ eval M ν ρ₀ arg =
        λ ρ v a.
          same (bind M ρ gen v)
          ∙ eval-Agree M g ρ₀ (bind M ρ gen v) ν arg (ExprClosed-ExprBelow g arg closed)
              (Agree-trans M g g ρ₀ ρ _ (omega arith) a (bind-Agree M g gen ρ v le)) in
      record {
        use_at = λ ρ K a sorted u.
            let v = eval M ν ρ₀ arg in
            let ρ₁ = bind M ρ gen v in
            let equal = (M.eq_iff _ _).1 (bind_self M ρ gen v ∙ sym (value ρ v a)) in
            let agree = Agree-trans M g g ρ₀ ρ ρ₁ (omega arith) a (bind-Agree M g gen ρ v le) in
            let (ρ', b, p, k) = t.use_at ρ₁ K agree sorted.1 (u v sorted.0 equal) in
            (
              ρ',
              λ y lt. b y (omega arith) ∙ bind-Agree M gen gen ρ v (omega arith) y lt,
              cc (b gen (omega arith), bind_self M ρ gen v, p),
              k,
            );
        build = λ ρ K a k v sort h.
            let ρ₁ = bind M ρ gen v in
            let agree = Agree-trans M g g ρ₀ ρ ρ₁ (omega arith) a (bind-Agree M g gen ρ v le) in
            let equal = (M.eq_iff _ _).0 h ∙ value ρ v a in
            t.build ρ₁ K agree λ ρ' b p.
              k ρ' (λ y lt. b y (omega arith) ∙ bind-Agree M gen gen ρ v (omega arith) y lt)
                (cc (b gen (omega arith), equal, p));
      }

  arg_to_fixpoint-Returns :
      (g gen : ℕ) (ρ₀ : Env M) (arg : Expr) (s : Sort)
      → ExprClosed g arg
      → g ≤ gen
      → Returns
          (λ (x, bs, gen₁). (gen ≤ gen₁) × Extends g gen gen₁ ρ₀ arg s x bs)
          (arg_to_fixpoint arg s gen)
  unfolding arg_to_fixpoint
  arg_to_fixpoint-Returns g gen ρ₀ (Expr.var (Var.free x)) s h le =
      returns (omega arith, variable-Extends g gen ρ₀ s x h le)
  arg_to_fixpoint-Returns g gen ρ₀ (Expr.var Var.bound) s h le = absurd h
  arg_to_fixpoint-Returns g gen ρ₀ arg s h le =
      Returns-bind (expr_to_fixpoint-Returns g arg h)
        λ e same. returns (omega arith, fresh-Extends g gen ρ₀ s arg e h le same)

  pub args_to_fixpoint-Translated :
      (g gen : ℕ) (ρ₀ : Env M) (args : List Expr) (sorts : List Sort)
      → g ≤ gen
      → All (ExprClosed g) args
      → length args ≡ length sorts
      → Returns
          (λ (xs, bs, gen'). (gen ≤ gen') × Translated g gen ρ₀ args sorts xs bs)
          (args_to_fixpoint args sorts gen)
  unfolding args_to_fixpoint
  args_to_fixpoint-Translated g gen ρ₀ [] sorts le h same = returns (
    omega arith,
    record {
      use_at = λ ρ K a sorted u. (ρ, λ y lt. refl, refl, u);
      build = λ ρ K a k. k ρ (λ y lt. refl) refl;
    },
  )
  args_to_fixpoint-Translated g gen ρ₀ (arg ∷ args) [] le h same = absurd (omega (arith, same))
  args_to_fixpoint-Translated g gen ρ₀ (arg ∷ args) (s ∷ sorts) le h same =
      Returns-bind (arg_to_fixpoint-Returns g gen ρ₀ arg s h.0 le) λ (x, bs, gen₁) (le₁, extends).
        Returns-bind
          (args_to_fixpoint-Translated g gen₁ ρ₀ args sorts (omega arith) h.1 (omega (arith, same)))
          λ (xs, cs, gen₂) (le₂, t). returns (omega arith, extends args sorts xs cs t)
