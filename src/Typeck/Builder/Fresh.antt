-- ===== src/Typeck/Builder/Fresh.antt =====
-- Unknown predicates that the cursor declares, liquid-rust-typeck/src/constraint_builder.rs.
use liquid_rust.Base.{
  ℕ, zero, suc, ◌≤◌, ◌≡◌, refl, List, [], ◌∷◌, ◌++◌, map, take, length, get_elem?, none, some, leb,
  Returns, returns, arith, true,
}
use liquid_rust.Fixpoint.Constraint.{Name, Kvid, Sort}
use liquid_rust.Typeck.Ty.{Var, Expr, Pred}
use liquid_rust.Typeck.Builder.{Cursor, fresh_kvar_at_scope, free_var}

get_elem?-append_new :
    {A : Type 0} (xs : List A) (x : A) → get_elem? (xs ++ (x ∷ [])) (length xs) ≡ some x
get_elem?-append_new [] x = refl
get_elem?-append_new (y ∷ ys) x = get_elem?-append_new ys x

get_elem?-append_old :
    {A : Type 0} (xs ys : List A) (k : ℕ) (x : A)
    → get_elem? xs k ≡ some x
    → get_elem? (xs ++ ys) k ≡ some x
get_elem?-append_old [] ys k x h = cc
get_elem?-append_old (y ∷ xs) ys zero x h = h
get_elem?-append_old (y ∷ xs) ys (suc k) x h = get_elem?-append_old xs ys k x h

get_elem?-length : {A : Type 0} (xs : List A) → get_elem? xs (length xs) ≡ none
get_elem?-length [] = refl
get_elem?-length (x ∷ xs) = get_elem?-length xs

-- `Scoped vars args sorts`: the arguments are the variables, in order, and the sorts are theirs.
pub data Scoped : List (Name × Sort) → List Expr → List Sort → Type 0 where
  nil : Scoped [] [] []
  cons :
      {x : Name} {s : Sort} {vars : List (Name × Sort)} {args : List Expr} {sorts : List Sort}
      → Scoped vars args sorts
      → Scoped ((x, s) ∷ vars) (Expr.var (Var.free x) ∷ args) (s ∷ sorts)

map-Scoped : (xs : List (Name × Sort)) → Scoped xs (map free_var xs) (map (λ (_, t). t) xs)
map-Scoped [] = nil
map-Scoped (x ∷ xs) = cons (map-Scoped xs)

-- What a fresh unknown predicate of the sort `s` in a scope is: it was not declared before, its first
-- argument is the bound variable, the others are the variables in scope, it is declared with the sort
-- `s` and those of the variables, and neither an earlier declaration nor the tree is changed.
pub data IsFreshKvar (c : Cursor) (s : Sort) (scope : ℕ) : Pred × Cursor → Type 0 where
  is_fresh :
      {k : Kvid} {args : List Expr} {sorts : List Sort} {c' : Cursor}
      → get_elem? c.builder.kvars k ≡ none
      → Scoped (take scope c.builder.vars) args sorts
      → get_elem? c'.builder.kvars k ≡ some (s ∷ sorts)
      → ((j : Kvid) (old : List Sort)
          → get_elem? c.builder.kvars j ≡ some old
          → get_elem? c'.builder.kvars j ≡ some old)
      → c'.root ≡ c.root
      → IsFreshKvar c s scope (Pred.kvar k (Expr.var Var.bound ∷ args), c')

-- In a scope of at most as many variables as the cursor has, a fresh unknown predicate is made without
-- a panic: it was not declared before, its first argument is the bound variable, of the sort that was
-- asked for, and the others are the first variables of the cursor, as many as are in the scope, in
-- their order. It is declared with the sorts of its arguments. The earlier unknown predicates keep
-- their declarations, and the tree is not changed. The index of an unknown predicate has no largest
-- value here.
pub fresh_kvar_at_scope-IsFreshKvar :
    (c : Cursor) (s : Sort) (scope : ℕ)
    → scope ≤ length c.builder.vars
    → Returns (IsFreshKvar c s scope) (fresh_kvar_at_scope c s scope)
unfolding fresh_kvar_at_scope
fresh_kvar_at_scope-IsFreshKvar c s scope h =
    let fits : leb scope (length c.builder.vars) ≡ true = ground arith in
    let xs = take scope c.builder.vars in
    let sorts = s ∷ map (λ (_, t). t) xs in
    rw fits (
      returns (
        is_fresh (get_elem?-length c.builder.kvars) (map-Scoped xs)
          (get_elem?-append_new c.builder.kvars sorts)
          (λ j ss. get_elem?-append_old c.builder.kvars (sorts ∷ []) j ss) refl))
