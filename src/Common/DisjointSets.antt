-- ===== src/Common/DisjointSets.antt =====
-- `DisjointSetsMap` of liquid-rust-common/src/disjoint_sets.rs: sets of indices with a value for each
-- set. An index out of bounds is a panic (`none`). `parent` is a vector of cells, so that a lookup
-- changes it; each operation gives the state that it leaves.
pub mod Roots
pub mod Attach
pub mod Valid
pub mod Union
pub mod Partition
pub mod Lookups
pub mod Refines
pub mod Push
use liquid_rust.Base.{
  ℕ, zero, suc, ◌+◌, ◌-◌, Bool, List, [], ◌∷◌, ◌++◌, Option, none, some, ◌==◌, leb, if◌then◌else◌,
  length, get_elem?, set, ℕ_discrete, find, insert,
}
use mathlib.Core.Logic.{ite}

pub record Sets (T : Type 0) : Type 0 where
  pub map : List (ℕ × T)
  pub parent : List ℕ
  pub size : List ℕ
  pub next : List ℕ

infixl 5 ◌>>=◌
abbrev pub ◌>>=◌ {ℓ κ} : {A : Type ℓ} {B : Type κ} → Option A → (A → Option B) → Option B
none >>= f = none
some a >>= f = f a

-- A write, which panics out of bounds.
abbrev pub write : List ℕ → ℕ → ℕ → Option (List ℕ)
write xs i v = get_elem? xs i >>= λ _. some (set xs i v)

-- `unchecked_find`: the result and the parents behind the compression of the path.
unfoldable pub unchecked_find : ℕ → ℕ → List ℕ → Option (ℕ × List ℕ)
unchecked_find zero elem parent = none
unchecked_find (suc fuel) elem parent = get_elem? parent elem >>= λ p. elim (ℕ_discrete p elem) [
  | yes _ ↦ some (p, parent)
  | no _ ↦ unchecked_find fuel p parent >>= λ (root, parent).
      write parent elem root >>= λ parent. get_elem? parent elem >>= λ p. some (p, parent)
]

abbrev pub total : List ℕ → ℕ
total [] = 0
total (n ∷ ns) = n + total ns

-- `HashMap::remove`
unfoldable pub remove {ℓ} : {V : Type ℓ} → List (ℕ × V) → ℕ → List (ℕ × V)
remove [] k = []
remove ((k', v) ∷ m) k = let rest = remove m k in ite (ℕ_discrete k' k) rest ((k', v) ∷ rest)

-- `next.swap`
abbrev pub swap : List ℕ → ℕ → ℕ → Option (List ℕ)
swap xs i j = get_elem? xs i >>= λ a. get_elem? xs j >>= λ b. some (set (set xs i b) j a)

module _ {T : Type 0} where
  -- A call from the outside has as much fuel as there are elements.
  unfoldable pub find_root : Sets T → ℕ → Option (ℕ × Sets T)
  unfolding unchecked_find
  find_root s elem = unchecked_find (suc (total s.size)) elem s.parent >>= λ (root, parent).
      some (root, record s { parent = parent })

  unfoldable pub same_set : Sets T → ℕ → ℕ → Option (Bool × Sets T)
  unfolding find_root
  same_set s idx1 idx2 =
      find_root s idx1 >>= λ (root1, s). find_root s idx2 >>= λ (root2, s). some (root1 == root2, s)

  -- `new`
  abbrev pub new : Sets T
  new = record { map = []; parent = []; size = []; next = [] }

  -- The new element in the four vectors and maps
  unfoldable pub add : Sets T → ℕ → T → Sets T
  unfolding insert
  add s idx elem = record {
    map = insert ℕ_discrete s.map idx elem;
    parent = s.parent ++ (idx ∷ []);
    size = s.size ++ (1 ∷ []);
    next = s.next ++ (idx ∷ []);
  }

  -- `push`: `next_index` panics above the largest index of the index type.
  unfoldable pub push : ℕ → Sets T → T → Option (ℕ × Sets T)
  push max_index s elem =
      let idx = length s.parent in if leb idx max_index then some (idx, add s idx elem) else none

  -- The end of `union`: `child` becomes a child of `root`.
  unfoldable pub attach : (T → T → T) → Sets T → ℕ → ℕ → ℕ → ℕ → Option (Sets T)
  unfolding find insert remove
  attach merge s root1 root2 root child = get_elem? s.size root >>= λ a.
      get_elem? s.size child >>= λ b. swap s.next root1 root2 >>= λ next.
      find ℕ_discrete s.map root1 >>= λ elem1.
      find ℕ_discrete (remove s.map root1) root2 >>= λ elem2.
      write s.parent child root >>= λ parent. some (record {
        map = insert ℕ_discrete (remove (remove s.map root1) root2) root (merge elem1 elem2);
        parent = parent;
        size = set s.size root (a + b);
        next = next;
      })

  unfoldable pub union : (T → T → T) → Sets T → ℕ → ℕ → Option (Sets T)
  unfolding find_root attach
  union merge s idx1 idx2 = find_root s idx1 >>= λ (root1, s). find_root s idx2 >>= λ (root2, s).
      elim (ℕ_discrete root1 root2) [
        | yes _ ↦ some s
        | no _ ↦ get_elem? s.size root1 >>= λ size1. get_elem? s.size root2 >>= λ size2.
            if leb size1 size2
            then attach merge s root1 root2 root2 root1
            else attach merge s root1 root2 root1 root2
      ]

  -- `multi_union`
  unfoldable pub union_each : (T → T → T) → ℕ → List ℕ → Sets T → Option (Sets T)
  unfolding union
  union_each merge first [] s = some s
  union_each merge first (idx ∷ indices) s =
      union merge s first idx >>= λ s. union_each merge first indices s

  unfoldable pub multi_union : (T → T → T) → List ℕ → Sets T → Option (Sets T)
  unfolding union_each
  multi_union merge [] s = some s
  multi_union merge (first ∷ indices) s = union_each merge first indices s

  -- `get`: `find` gives nothing on an index out of bounds.
  unfoldable pub get : Sets T → ℕ → Option (Option T × Sets T)
  unfolding unchecked_find find
  get s idx = elim (get_elem? s.parent idx) [
    | none ↦ some (none, s)
    | some p ↦ unchecked_find (suc (total s.size)) p s.parent >>= λ (root, parent).
        some (find ℕ_discrete s.map root, record s { parent = parent })
  ]
