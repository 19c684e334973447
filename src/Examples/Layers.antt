-- ===== src/Examples/Layers.antt =====
-- A map of layers with the interface of Driver/ScopeMap, as a list of association lists.
use liquid_rust.Base.{
  ℕ, ◌+◌, Bool, true, false, List, [], ◌∷◌, Option, none, some, ◌≡◌, ◌≢◌, refl, ap, ℕ_discrete,
  find,
}
use mathlib.Core.Logic.{ite}
use liquid_rust.Base.{length}
use liquid_rust.Driver.ScopeMap.{ScopeMap, IsScopeMap}

-- The top layer and those below it.
pub record Layers (V : Type 0) : Type 0 where
  pub top : List (ℕ × V)
  pub below : List (List (ℕ × V))

module _ {V : Type 0} where
  abbrev pub or_else : Option V → Option V → Option V
  or_else (some v) o = some v
  or_else none o = o

  abbrev pub is_some : Option V → Bool
  is_some (some _) = true
  is_some none = false

  unfoldable pub find_in : List (List (ℕ × V)) → ℕ → Option V
  find_in [] k = none
  find_in (l ∷ ls) k = or_else (find ℕ_discrete l k) (find_in ls k)

  abbrev at_top : List (ℕ × V) → ℕ → Bool
  at_top l k = is_some (find ℕ_discrete l k)

  abbrev pop : List (List (ℕ × V)) → Layers V
  pop [] = record { top = []; below = [] }
  pop (l ∷ ls) = record { top = l; below = ls }

  abbrev total : List (List (ℕ × V)) → ℕ
  total [] = 0
  total (l ∷ ls) = length l + total ls

  unfoldable pub layers : ScopeMap ℕ V (Layers V)
  unfolding find_in
  layers = record {
    new = record { top = []; below = [] };
    define = λ m k v. record m { top = (k, v) ∷ m.top };
    get = λ m k. find_in (m.top ∷ m.below) k;
    contains_key_at_top = λ m k. at_top m.top k;
    push_layer = λ m. record { top = []; below = m.top ∷ m.below };
    pop_layer = λ m. pop m.below;
    len = λ m. total (m.top ∷ m.below);
  }

  find-same : (l : List (ℕ × V)) (k : ℕ) (v : V) → find ℕ_discrete ((k, v) ∷ l) k ≡ some v
  unfolding find
  find-same l k v = elim (ℕ_discrete k k) as (λ d. ite d (some v) (find ℕ_discrete l k) ≡ some v) [
    | yes _ ↦ refl
    | no n ↦ absurd (n refl)
  ]

  find-differ :
      (l : List (ℕ × V)) (k j : ℕ) (v : V)
      → k ≢ j
      → find ℕ_discrete ((k, v) ∷ l) j ≡ find ℕ_discrete l j
  unfolding find
  find-differ l k j v h =
      elim (ℕ_discrete k j) as (λ d. ite d (some v) (find ℕ_discrete l j) ≡ find ℕ_discrete l j) [
        | yes e ↦ absurd (h e)
        | no _ ↦ refl
      ]

  at_top_inv :
      (l : List (ℕ × V)) (ls : List (List (ℕ × V))) (k : ℕ)
      → at_top l k ≡ true
      → (v : V) × (find_in (l ∷ ls) k ≡ some v)
  unfolding find_in
  at_top_inv l ls k h =
      let (v, e) = found (find ℕ_discrete l k) h in (v, ap (λ o. or_else o (find_in ls k)) e)
    where
      found : (o : Option V) → is_some o ≡ true → (v : V) × (o ≡ some v)
      found (some v) h = (v, refl)
      found none h = cc

  pub layers-IsScopeMap : IsScopeMap layers
  unfolding find_in layers find
  layers-IsScopeMap = record {
    get_new = λ k. refl;
    get_define = λ m k v. ap (λ o. or_else o (find_in m.below k)) (find-same m.top k v);
    get_define_other =
        λ m k j v h. ap (λ o. or_else o (find_in m.below j)) (find-differ m.top k j v h);
    get_push = λ m k. refl;
    get_pop = λ m k j v. refl;
    at_top_new = λ k. refl;
    at_top_push = λ m k. refl;
    at_top_define = λ m k v. ap is_some (find-same m.top k v);
    at_top_define_other = λ m k j v h. ap is_some (find-differ m.top k j v h);
    get_at_top = λ m k h. at_top_inv m.top m.below k h;
  }
