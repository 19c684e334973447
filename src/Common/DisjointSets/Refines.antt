-- ===== src/Common/DisjointSets/Refines.antt =====
-- `union` and `same_set` of liquid-rust-common/src/disjoint_sets.rs, lookups included.
use liquid_rust.Base.{
  ℕ, ◌<◌, List, some, ◌≡◌, ◌≢◌, refl, sym, ◌∙◌, subst, arith, length, get_elem?, ℕ_discrete, ◌⊎◌,
  inl, inr, Bool-cases, leb, if◌then◌else◌, ◌↔◌, Bool, true, ◌==◌, ==_iff,
}
use liquid_rust.Common.DisjointSets.{Sets, find_root, same_set, attach, union}
use liquid_rust.Common.DisjointSets.Roots.{Root, Root-own, Root-unique}
use liquid_rust.Common.DisjointSets.Valid.{IsValid, Compresses-IsValid, Compresses-inv}
use liquid_rust.Common.DisjointSets.Union.{size_of_root}
use liquid_rust.Common.DisjointSets.Partition.{Same, HasValue, Joined, attach-Joined}
use liquid_rust.Common.DisjointSets.Lookups.{
  Found, find_both, Same-compressed, Joined-compressed, Joined-compressed_inv, Same-sym, Same-trans,
}

-- The two ends of `union`.
module _ {T : Type 0} (merge : T → T → T) (s s1 s2 : Sets T) (i j r1 r2 : ℕ)
    (e1 : find_root s i ≡ some (r1, s1)) (e2 : find_root s1 j ≡ some (r2, s2)) where
  union_same : r1 ≡ r2 → union merge s i j ≡ some s2
  unfolding union
  union_same h = rw (e1, e2) (ground arith)

  union-attach :
      (a b : ℕ)
      → r1 ≢ r2
      → get_elem? s2.size r1 ≡ some a
      → get_elem? s2.size r2 ≡ some b
      → union merge s i j
        ≡ (if leb a b then attach merge s2 r1 r2 r2 r1 else attach merge s2 r1 r2 r1 r2)
  unfolding union
  union-attach a b n ha hb = rw (e1, e2) (ground arith)

abbrev pub Unites : {T : Type 0} → (T → T → T) → Sets T → ℕ → ℕ → Sets T → Type 0
Unites merge s i j s' =
    IsValid s'
    × (length s'.parent ≡ length s.parent)
    × ((x y : ℕ) → Same s'.parent x y ↔ Joined s.parent i j x y)
    × (¬ Same s.parent i j
        → (t1 : _) × (t2 : _) × HasValue s i t1 × HasValue s j t2 × HasValue s' i (merge t1 t2))

module _ {T : Type 0} (merge : T → T → T) (s : Sets T) (v : IsValid s) (i j : ℕ)
    (f : Found s v i j) where
  abbrev looked_up : Sets T
  looked_up = record s { parent = f.parent }

  looked_up-IsValid : IsValid looked_up
  looked_up-IsValid = Compresses-IsValid s v f.parent f.compressed f.same_length

  HasValue-compressed : (x : ℕ) (t : T) → HasValue looked_up x t → HasValue s x t
  HasValue-compressed x t (r, h, e) = (r, Compresses-inv s v f.compressed f.same_length h, e)

  looked_up-Unites : f.r1 ≡ f.r2 → Unites merge s i j looked_up
  looked_up-Unites e =
      let one : Same f.parent i j =
        (f.r1, f.root1, subst (λ r. Root f.parent r j) (sym e) f.root2) in
      (
        looked_up-IsValid,
        f.same_length,
        (λ x y. (
          (λ h. inl ((Same-compressed s v f.parent f.compressed f.same_length x y).0 h)),
          (λ h.
              undo x y one
                (Joined-compressed_inv s v f.parent f.compressed f.same_length i j x y h)),
        )),
        (λ n. absurd (n ((Same-compressed s v f.parent f.compressed f.same_length i j).0 one))),
      )
    where
      undo :
          {parent : List ℕ} {i j : ℕ} (x y : ℕ)
          → Same parent i j
          → Joined parent i j x y
          → Same parent x y
      undo x y one (inl h) = h
      undo x y one (inr (inl (a, b))) = Same-trans (Same-trans a one) (Same-sym b)
      undo x y one (inr (inr (a, b))) = Same-trans (Same-trans a (Same-sym one)) (Same-sym b)

  attach-Unites :
      (root child : ℕ)
      → f.r1 ≢ f.r2
      → ((root ≡ f.r2) × (child ≡ f.r1)) ⊎ ((root ≡ f.r1) × (child ≡ f.r2))
      → (s' : Sets T) × (attach merge looked_up f.r1 f.r2 root child ≡ some s')
        × Unites merge s i j s'
  attach-Unites root child n pair =
      let (s', e, valid, l, same, (t1, t2, a, b, c)) =
        attach-Joined looked_up looked_up-IsValid i j f.r1 f.r2 f.root1 f.root2 n root child pair
          merge in
      (
        s',
        e,
        (
          valid,
          l ∙ f.same_length,
          (λ x y. (
            (λ h.
                Joined-compressed s v f.parent f.compressed f.same_length i j x y ((same x y).0 h)),
            (λ h.
                (same x y).1
                  (Joined-compressed_inv s v f.parent f.compressed f.same_length i j x y h)),
          )),
          (λ _. (t1, t2, HasValue-compressed i t1 a, HasValue-compressed j t2 b, c)),
        ),
      )

  union_found : (s' : Sets T) × (union merge s i j ≡ some s') × Unites merge s i j s'
  union_found = elim (ℕ_discrete f.r1 f.r2) [
    | yes e ↦ (
      looked_up,
      union_same merge s f.s1 looked_up i j f.r1 f.r2 f.find1 f.find2 e,
      looked_up-Unites e,
    )
    | no n ↦
        let (a, ha, _) = size_of_root merge looked_up looked_up-IsValid f.r1 (Root-own f.root1) in
        let (b, hb, _) = size_of_root merge looked_up looked_up-IsValid f.r2 (Root-own f.root2) in
        let unfolded =
          union-attach merge s f.s1 looked_up i j f.r1 f.r2 f.find1 f.find2 a b n ha hb in
        elim (Bool-cases (leb a b)) [
          | inl t ↦
              let (s', e, u) = attach-Unites f.r2 f.r1 n (inl (refl, refl)) in
              (s', unfolded ∙ rw t e, u)
          | inr t ↦
              let (s', e, u) = attach-Unites f.r1 f.r2 n (inr (refl, refl)) in
              (s', unfolded ∙ rw t e, u)
        ]
  ]

-- For indices in bounds of a valid map, `union` does not panic and leaves a valid map of the same
-- indices. Two of them are in one set exactly if they were before, or one was in the set of `i` and
-- the other in that of `j`. If these two sets were different, the joined set has the values of both, merged
-- in this order.
pub union-Joined :
    {T : Type 0} (merge : T → T → T) (s : Sets T) (i j : ℕ)
    → IsValid s
    → i < length s.parent
    → j < length s.parent
    → (s' : Sets T) × (union merge s i j ≡ some s') × Unites merge s i j s'
union-Joined merge s i j v bi bj = union_found merge s v i j (find_both s v i j bi bj)

-- For indices in bounds of a valid map, `same_set` does not panic and leaves a valid map with the same
-- sets. Its answer is whether the two indices are in one set.
pub same_set-Same :
    {T : Type 0} (s : Sets T) (i j : ℕ)
    → IsValid s
    → i < length s.parent
    → j < length s.parent
    → (b : Bool) × (s' : Sets T) × (same_set s i j ≡ some (b, s'))
      × IsValid s'
      × ((x y : ℕ) → Same s'.parent x y ↔ Same s.parent x y)
      × ((b ≡ true) ↔ Same s.parent i j)
unfolding same_set
same_set-Same s i j v bi bj =
    let f = find_both s v i j bi bj in
    let iff = Same-compressed s v f.parent f.compressed f.same_length in
    (
      f.r1 == f.r2,
      record s { parent = f.parent },
      rw (f.find1, f.find2) refl,
      Compresses-IsValid s v f.parent f.compressed f.same_length,
      iff,
      (
        (λ e.
            (iff i j).0 (
              f.r1,
              f.root1,
              subst (λ r. Root f.parent r j) (sym ((==_iff f.r1 f.r2).0 e)) f.root2,
            )),
        (λ h.
            let (r, a, b) = (iff i j).1 h in
            (==_iff f.r1 f.r2).1 (Root-unique f.root1 a ∙ Root-unique b f.root2)),
      ),
    )
