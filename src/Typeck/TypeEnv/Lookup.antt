-- ===== src/Typeck/TypeEnv/Lookup.antt =====
-- What the operations of liquid-rust-typeck/src/type_env.rs do to the bindings of an environment.
use liquid_rust.Base.{◌≡◌, ◌≢◌, refl, sym, ap, ◌∙◌, subst, [], ◌∷◌, Option, none, some, find}
use mathlib.Core.Logic.{ite}
use liquid_rust.Typeck.Ty.{Loc, Ty, Loc-discrete}
use liquid_rust.Typeck.TypeEnv.{
  TypeEnv, Binding, find_loc, lookup_loc, weakened, retained, weakening,
}

-- What `weakening` leaves of a location.
abbrev pub weakened_entry : Option Ty → Option Binding → Option Binding
weakened_entry other none = none
weakened_entry other (some binding) = weakened other binding

find_loc-cons :
    (loc j : Loc) (binding : Binding) (env : TypeEnv)
    → find_loc ((loc, binding) ∷ env) j ≡ ite (Loc-discrete loc j) (some binding) (find_loc env j)
unfolding find
find_loc-cons loc j binding env = refl

find-retained :
    (loc j : Loc) (o : Option Binding) (env : TypeEnv)
    → find_loc (retained loc o env) j ≡ elim o [
      | none ↦ find_loc env j
      | some b ↦ ite (Loc-discrete loc j) (some b) (find_loc env j)
    ]
unfolding find
find-retained loc j none env = refl
find-retained loc j (some b) env = refl

-- The keys of an environment are different.
abbrev pub NoDuplicates : TypeEnv → Type 0
NoDuplicates [] = Unit
NoDuplicates ((loc, _) ∷ env) = (find_loc env loc ≡ none) × NoDuplicates env

find_loc-weakened :
    (loc j : Loc) (o : Option Binding) (binding : Binding) (env : TypeEnv) (rest : Option Binding)
    → ((o ≡ none) → (loc ≡ j) → rest ≡ none)
    → find_loc env j ≡ rest
    → find_loc (retained loc o env) j ≡ ite (Loc-discrete loc j) o rest
unfolding find
find_loc-weakened loc j none binding env rest f e =
    elim (Loc-discrete loc j) as (λ d. find_loc env j ≡ ite d none rest) [
      | yes same ↦ e ∙ f refl same
      | no _ ↦ e
    ]
find_loc-weakened loc j (some b) binding env rest f e =
    ap (λ x. ite (Loc-discrete loc j) (some b) x) e

find_loc-weakening :
    (env other : TypeEnv) (j : Loc)
    → NoDuplicates env
    → find_loc (weakening env other) j ≡ weakened_entry (lookup_loc other j) (find_loc env j)
unfolding weakening find
find_loc-weakening [] other j h = refl
find_loc-weakening ((loc, binding) ∷ env) other j (h, hs) =
    let ih = find_loc-weakening env other j hs in
    let rest = weakened_entry (lookup_loc other j) (find_loc env j) in
    find_loc-weakened loc j (weakened (lookup_loc other loc) binding) binding (weakening env other)
      rest
      (λ _ same.
        subst (λ k. weakened_entry (lookup_loc other k) (find_loc env k) ≡ none) same
          (ap (weakened_entry (lookup_loc other loc)) h))
      ih
    ∙ (elim (Loc-discrete loc j)
        as (λ d.
          ite d (weakened (lookup_loc other loc) binding) rest
          ≡ weakened_entry (lookup_loc other j) (ite d (some binding) (find_loc env j))) [
            | yes same ↦ ap (λ k. weakened (lookup_loc other k) binding) same
            | no _ ↦ refl
          ])

-- `Weakens other old new`: what `new` is left of the binding `old` of a location, where `other` is the
-- location's type in the other environment.
pub data Weakens : Option Ty → Option Binding → Option Binding → Type 0 where
  absent : {other : Option Ty} → Weakens other none none
  dropped : {old : Binding} → Weakens none (some old) none
  cleared : {old : Binding} → Weakens (some Ty.uninit) (some old) (some (Binding.strong Ty.uninit))
  kept : {ty : Ty} {old : Binding} → (ty ≢ Ty.uninit) → Weakens (some ty) (some old) (some old)

entry-Weakens :
    (other : Option Ty) (old : Option Binding) → Weakens other old (weakened_entry other old)
entry-Weakens other none = absent
entry-Weakens none (some old) = dropped
entry-Weakens (some Ty.uninit) (some old) = cleared
entry-Weakens (some _) (some old) = kept (λ h. cc)

-- What weakening an environment by another one does to every location, where the locations of the first
-- are different: a location that the first lacks is not added, one that only the first has is dropped,
-- one that is uninitialized in the other becomes uninitialized, with a strong binding, and every other
-- one keeps its binding.
pub weakening-Weakens :
    (env other : TypeEnv) (j : Loc)
    → NoDuplicates env
    → Weakens (lookup_loc other j) (find_loc env j) (find_loc (weakening env other) j)
weakening-Weakens env other j h =
    subst (Weakens (lookup_loc other j) (find_loc env j)) (sym (find_loc-weakening env other j h))
      (entry-Weakens (lookup_loc other j) (find_loc env j))
