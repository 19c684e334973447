-- ===== src/Common/DisjointSets/Lookups.antt =====
-- The two lookups at the start of `union` and `same_set` of liquid-rust-common/src/disjoint_sets.rs: they
-- keep the sets.
use liquid_rust.Base.{ℕ, ◌<◌, List, some, ◌≡◌, ◌∙◌, subst, arith, length, inl, inr, ◌↔◌}
use liquid_rust.Common.DisjointSets.{Sets, find_root}
use liquid_rust.Common.DisjointSets.Roots.{Root, Root-unique, Compresses, Compresses-trans}
use liquid_rust.Common.DisjointSets.Valid.{
  IsValid, Compresses-IsValid, Compresses-inv, find_root-Root,
}
use liquid_rust.Common.DisjointSets.Partition.{Same, Joined}

module _ {T : Type 0} (s : Sets T) (v : IsValid s) where
  -- Two lookups.
  pub record Found (i j : ℕ) : Type 0 where
    pub r1 : ℕ
    pub r2 : ℕ
    pub s1 : Sets T
    pub parent : List ℕ
    pub find1 : find_root s i ≡ some (r1, s1)
    pub find2 : find_root s1 j ≡ some (r2, record s { parent = parent })
    pub root1 : Root parent r1 i
    pub root2 : Root parent r2 j
    pub compressed : Compresses s.parent parent
    pub same_length : length parent ≡ length s.parent

  pub find_both : (i j : ℕ) → i < length s.parent → j < length s.parent → Found i j
  find_both i j bi bj =
      let (r1, p1, e1, h1, c1, l1) = find_root-Root s v i bi in
      let v1 = Compresses-IsValid s v p1 c1 l1 in
      let (r2, p2, e2, h2, c2, l2) = find_root-Root (record s { parent = p1 }) v1 j (omega arith) in
      record {
        r1 = r1;
        r2 = r2;
        s1 = record s { parent = p1 };
        parent = p2;
        find1 = e1;
        find2 = e2;
        root1 = (c2 r1 i (c1 r1 i h1).0).0;
        root2 = (c2 r2 j h2).0;
        compressed = Compresses-trans c1 c2;
        same_length = l2 ∙ l1;
      }

  module _ (parent : List ℕ) (c : Compresses s.parent parent)
      (l : length parent ≡ length s.parent) where
    pub Same-compressed : (x y : ℕ) → Same parent x y ↔ Same s.parent x y
    Same-compressed x y = (
      (λ (r, a, b). (r, Compresses-inv s v c l a, Compresses-inv s v c l b)),
      (λ (r, a, b). (r, (c r x a).0, (c r y b).0)),
    )

    pub Joined-compressed : (i j x y : ℕ) → Joined parent i j x y → Joined s.parent i j x y
    Joined-compressed i j x y (inl h) = inl ((Same-compressed x y).0 h)
    Joined-compressed i j x y (inr (inl (a, b))) =
        inr (inl ((Same-compressed x i).0 a, (Same-compressed y j).0 b))
    Joined-compressed i j x y (inr (inr (a, b))) =
        inr (inr ((Same-compressed x j).0 a, (Same-compressed y i).0 b))

    pub Joined-compressed_inv : (i j x y : ℕ) → Joined s.parent i j x y → Joined parent i j x y
    Joined-compressed_inv i j x y (inl h) = inl ((Same-compressed x y).1 h)
    Joined-compressed_inv i j x y (inr (inl (a, b))) =
        inr (inl ((Same-compressed x i).1 a, (Same-compressed y j).1 b))
    Joined-compressed_inv i j x y (inr (inr (a, b))) =
        inr (inr ((Same-compressed x j).1 a, (Same-compressed y i).1 b))

pub Same-sym : {parent : List ℕ} {x y : ℕ} → Same parent x y → Same parent y x
Same-sym (r, a, b) = (r, b, a)

pub Same-trans : {parent : List ℕ} {x y z : ℕ} → Same parent x y → Same parent y z → Same parent x z
Same-trans {parent} {x} {y} {z} (r, a, b) (q, c, d) =
    (r, a, subst (λ q. Root parent q z) (Root-unique c b) d)
