-- ===== src/Common/DisjointSets/Valid.antt =====
-- The invariant of `DisjointSetsMap` of liquid-rust-common/src/disjoint_sets.rs, kept by a lookup.
use liquid_rust.Base.{
  ℕ, zero, suc, ◌<◌, ◌≤◌, List, [], ◌∷◌, some, ◌≡◌, refl, sym, ◌∙◌, subst, arith, length, get_elem?,
  ℕ_discrete, find,
}
use liquid_rust.Common.DisjointSets.{Sets, total, find_root}
use liquid_rust.Common.DisjointSets.Roots.{
  Root, here, depth, Root-own, parent_of, Root-unique, Compresses, unchecked_find-Root,
}

-- Every element has a root, which has a value, and whose set is larger than the path to it is long.
pub record IsValid {T : Type 0} (s : Sets T) : Type 0 where
  pub rooted :
      (x : ℕ)
      → x < length s.parent
      → (r : ℕ) × (k : ℕ) × (h : Root s.parent r x) × (get_elem? s.size r ≡ some k) × (depth h < k)
  pub entries :
      (r : ℕ) → get_elem? s.parent r ≡ some r → (t : T) × (find ℕ_discrete s.map r ≡ some t)
  pub size_length : length s.size ≡ length s.parent
  pub next_length : length s.next ≡ length s.parent

pub bound_of : (xs : List ℕ) (i : ℕ) {a : ℕ} → get_elem? xs i ≡ some a → i < length xs
bound_of [] i h = absurd (cc)
bound_of (x ∷ xs) zero h = omega arith
bound_of (x ∷ xs) (suc i) h = omega (arith, bound_of xs i h)

pub get_elem-bound : (xs : List ℕ) (i : ℕ) → i < length xs → (a : ℕ) × (get_elem? xs i ≡ some a)
get_elem-bound [] i b = absurd (omega arith)
get_elem-bound (x ∷ xs) zero b = (x, refl)
get_elem-bound (x ∷ xs) (suc i) b = get_elem-bound xs i (omega arith)

get_elem-total : (xs : List ℕ) (i : ℕ) {k : ℕ} → get_elem? xs i ≡ some k → k ≤ total xs
get_elem-total [] i h = absurd (cc)
get_elem-total (x ∷ xs) zero {k} h = let same : x ≡ k = cc in omega arith
get_elem-total (x ∷ xs) (suc i) h = omega (arith, get_elem-total xs i h)

module _ {T : Type 0} (s : Sets T) (v : IsValid s) where
  -- What stands behind a change of the parents that keeps the roots.
  pub Compresses-IsValid :
      (parent : List ℕ)
      → Compresses s.parent parent
      → length parent ≡ length s.parent
      → IsValid (record s { parent = parent })
  Compresses-IsValid parent c l = record {
    rooted = λ x b.
        let (r, k, h, e, d) = v.rooted x (omega arith) in
        let (h', d') = c r x h in (r, k, h', e, omega arith);
    entries = λ r e.
        let b = bound_of parent r e in
        let (r', k, h, e', d) = v.rooted r (omega arith) in
        let (h', _) = c r' r h in
        let same : r' ≡ r = Root-unique h' (here refl e) in
        v.entries r (subst (λ y. get_elem? s.parent y ≡ some y) same (Root-own h));
    size_length = v.size_length ∙ sym l;
    next_length = v.next_length ∙ sym l;
  }

  pub Compresses-inv :
      {parent : List ℕ} {r x : ℕ}
      → Compresses s.parent parent
      → length parent ≡ length s.parent
      → Root parent r x
      → Root s.parent r x
  Compresses-inv {parent} {r} {x} c l h =
      let (p, e) = parent_of h in
      let b = bound_of parent x e in
      let (r', k, h', e', d) = v.rooted x (omega arith) in
      let (h'', _) = c r' x h' in subst (λ r. Root s.parent r x) (Root-unique h'' h) h'

  -- A lookup gives the root, changes parents only, and keeps the invariant.
  pub find_root-Root :
      (x : ℕ)
      → x < length s.parent
      → (r : ℕ) × (parent : List ℕ) × (find_root s x ≡ some (r, record s { parent = parent }))
        × Root s.parent r x
        × Compresses s.parent parent
        × (length parent ≡ length s.parent)
  unfolding find_root
  find_root-Root x b =
      let (r, k, h, e, d) = v.rooted x b in
      let size_bound = get_elem-total s.size r e in
      let (parent, found, c, l) =
        unchecked_find-Root (suc (total s.size)) s.parent r x h (omega arith) in
      (r, parent, rw found refl, h, c, l)
