-- ===== src/Common/DisjointSets/Roots.antt =====
-- `unchecked_find` of liquid-rust-common/src/disjoint_sets.rs against the root that the parents lead to.
use liquid_rust.Base.{
  ℕ, zero, suc, ◌<◌, ◌≤◌, List, [], ◌∷◌, some, ◌≡◌, ◌≢◌, refl, sym, ap, ◌∙◌, subst, arith, length,
  get_elem?, set, ℕ_discrete,
}
use liquid_rust.Common.DisjointSets.{unchecked_find}

-- The parents lead from `x` to `r`, which is its own parent.
pub data Root (parent : List ℕ) (r : ℕ) : ℕ → Type 0 where
  here : {x : ℕ} → x ≡ r → get_elem? parent r ≡ some r → Root parent r x
  step : {x p : ℕ} → get_elem? parent x ≡ some p → p ≢ x → Root parent r p → Root parent r x

abbrev pub depth : {parent : List ℕ} {r x : ℕ} → Root parent r x → ℕ
depth (here _ _) = 0
depth (step _ _ h) = suc (depth h)

pub Root-own : {parent : List ℕ} {r x : ℕ} → Root parent r x → get_elem? parent r ≡ some r
Root-own (here _ e) = e
Root-own (step _ _ h) = Root-own h

-- An element with a root is in bounds.
pub parent_of :
    {parent : List ℕ} {r x : ℕ} → Root parent r x → (p : ℕ) × (get_elem? parent x ≡ some p)
parent_of {parent} {r} (here e h) = (r, ap (get_elem? parent) e ∙ h)
parent_of (step {x} {p} h n k) = (p, h)

pub Root-unique : {parent : List ℕ} {r s x : ℕ} → Root parent r x → Root parent s x → r ≡ s
Root-unique (here e _) (here e' _) = sym e ∙ e'
Root-unique {parent} {r} {s} {x} (here e h) (step {p} h' n k) =
    let at : get_elem? parent x ≡ get_elem? parent r = ap (get_elem? parent) e in
    let same : p ≡ x = cc in absurd (n same)
Root-unique {parent} {r} {s} {x} (step {p} h' n k) (here e h) =
    let at : get_elem? parent x ≡ get_elem? parent s = ap (get_elem? parent) e in
    let same : p ≡ x = cc in absurd (n same)
Root-unique {parent} {r} {s} (step {x} {p} h n k) (step {p = q} h' n' k') =
    let same : q ≡ p = cc in Root-unique k (subst (Root parent s) same k')

pub get-set :
    (xs : List ℕ) (i v : ℕ) {a : ℕ} → get_elem? xs i ≡ some a → get_elem? (set xs i v) i ≡ some v
get-set [] i v h = absurd (cc)
get-set (x ∷ xs) zero v h = refl
get-set (x ∷ xs) (suc i) v h = get-set xs i v h

pub get-set_other : (xs : List ℕ) (i j v : ℕ) → i ≢ j → get_elem? (set xs i v) j ≡ get_elem? xs j
get-set_other [] i j v n = refl
get-set_other (x ∷ xs) zero zero v n = absurd (n refl)
get-set_other (x ∷ xs) zero (suc j) v n = refl
get-set_other (x ∷ xs) (suc i) zero v n = refl
get-set_other (x ∷ xs) (suc i) (suc j) v n = get-set_other xs i j v (λ e. n (ap suc e))

-- Every root stays, and no path becomes longer.
abbrev pub Compresses : List ℕ → List ℕ → Type 0
Compresses p q = (r x : ℕ) (h : Root p r x) → (h' : Root q r x) × (depth h' ≤ depth h)

-- A shortcut to the root.
module _ (parent : List ℕ) (r x : ℕ) {a : ℕ} (e : get_elem? parent x ≡ some a)
    (k : Root parent r x) where
  abbrev short : List ℕ
  short = set parent x r

  -- A root is still its own parent.
  root_kept : (s : ℕ) → get_elem? parent s ≡ some s → get_elem? short s ≡ some s
  root_kept s h = elim (ℕ_discrete x s) [
    | yes i ↦
        let at : Root parent s x = here i h in
        let same : r ≡ s = Root-unique k at in
        subst (λ y. get_elem? short y ≡ some s) i (get-set parent x r e ∙ ap some same)
    | no n ↦ get-set_other parent x s r n ∙ h
  ]

  -- An element that is not a root is not the root.
  root_differs : {p : ℕ} → get_elem? parent x ≡ some p → p ≢ x → r ≢ x
  root_differs {p} h n same =
      let at : get_elem? parent r ≡ get_elem? parent x = ap (get_elem? parent) same in
      let self : get_elem? parent r ≡ some r = Root-own k in let clash : p ≡ x = cc in n clash

  shortcut : Compresses parent short
  shortcut s z (here same h) = (here same (root_kept s h), omega arith)
  shortcut s z (step {p} h n l) = elim (ℕ_discrete x z) [
    | yes i ↦
        let at : get_elem? parent x ≡ some p = ap (get_elem? parent) i ∙ h in
        let not_x : p ≢ x = λ j. n (j ∙ i) in
        let root : Root parent s x = step at not_x l in
        let same : r ≡ s = Root-unique k root in
        let self : get_elem? short r ≡ some r = root_kept r (Root-own k) in
        let link : get_elem? short z ≡ some r =
          subst (λ y. get_elem? short y ≡ some r) i (get-set parent x r e) in
        (
          step link (λ j. root_differs at not_x (j ∙ sym i))
              (here same (subst (λ y. get_elem? short y ≡ some y) same self)),
          omega arith,
        )
    | no m ↦
        let (l', b) = shortcut s p l in (step (get-set_other parent x z r m ∙ h) n l', omega arith)
  ]

pub length-set : (xs : List ℕ) (i v : ℕ) → length (set xs i v) ≡ length xs
length-set [] i v = refl
length-set (x ∷ xs) zero v = refl
length-set (x ∷ xs) (suc i) v = ap suc (length-set xs i v)

pub Compresses-trans : {p q o : List ℕ} → Compresses p q → Compresses q o → Compresses p o
Compresses-trans f g r x h = let (h', b) = f r x h in let (h'', b') = g r x h' in (h'', omega arith)

-- One call, at a root and elsewhere.
find_at_root :
    (fuel : ℕ) (parent : List ℕ) (x : ℕ)
    → get_elem? parent x ≡ some x
    → unchecked_find (suc fuel) x parent ≡ some (x, parent)
unfolding unchecked_find
find_at_root fuel parent x h = ground arith

find_above :
    (fuel : ℕ) (parent parent' : List ℕ) (x p r : ℕ) {a : ℕ}
    → get_elem? parent x ≡ some p
    → p ≢ x
    → unchecked_find fuel p parent ≡ some (r, parent')
    → get_elem? parent' x ≡ some a
    → unchecked_find (suc fuel) x parent ≡ some (r, set parent' x r)
unfolding unchecked_find
find_above fuel parent parent' x p r h n e k = ground (arith, get-set parent' x r k)

-- With more fuel than the path to the root has steps, `unchecked_find` gives the root. It leaves parents
-- with the same roots, and no path is longer than before.
pub unchecked_find-Root :
    (fuel : ℕ) (parent : List ℕ) (r x : ℕ) (h : Root parent r x)
    → depth h < fuel
    → (parent' : List ℕ) × (unchecked_find fuel x parent ≡ some (r, parent'))
      × Compresses parent parent'
      × (length parent' ≡ length parent)
unfolding unchecked_find
unchecked_find-Root zero parent r x h b = absurd (omega arith)
unchecked_find-Root (suc fuel) parent r x (here e h) b =
    let at : get_elem? parent x ≡ some x = subst (λ y. get_elem? parent y ≡ some y) (sym e) h in
    (
      parent,
      find_at_root fuel parent x at ∙ ap (λ y. some (y, parent)) e,
      (λ r x h. (h, omega arith)),
      refl,
    )
unchecked_find-Root (suc fuel) parent r x (step {p} h n k) b =
    let (parent', found, c, l) = unchecked_find-Root fuel parent r p k (omega arith) in
    let (k', _) = c r x (step h n k) in
    let (a, still) = parent_of k' in
    (
      set parent' x r,
      find_above fuel parent parent' x p r h n found still,
      Compresses-trans c (shortcut parent' r x still k'),
      length-set parent' x r ∙ l,
    )
