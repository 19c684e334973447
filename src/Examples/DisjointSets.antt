-- ===== src/Examples/DisjointSets.antt =====
-- Three elements of which two are joined, with liquid-rust-common/src/disjoint_sets.rs.
use liquid_rust.Base.{
  ℕ, ◌+◌, ◌≤◌, ◌≡◌, subst, length, none, ◌↔◌, refl, arith, Bool, true, [], ◌∷◌, some, find, insert,
  ℕ_discrete,
}
use liquid_rust.Common.DisjointSets.{
  Sets, new, add, push, unchecked_find, find_root, same_set, remove, attach, union, multi_union,
  union_each, get,
}
use liquid_rust.Common.DisjointSets.Valid.{IsValid}
use liquid_rust.Common.DisjointSets.Partition.{Same}
use liquid_rust.Common.DisjointSets.Refines.{Unites, union-Joined, same_set-Same}
use liquid_rust.Common.DisjointSets.Push.{Pushed, new-IsValid, push-Pushed}

program : Unit {0}
unfolding unchecked_find find_root same_set add push remove attach union union_each multi_union get
    find insert ℕ_discrete
program = tt

abbrev one : Sets ℕ
one = record { map = (0, 5) ∷ []; parent = 0 ∷ []; size = 1 ∷ []; next = 0 ∷ [] }

abbrev two : Sets ℕ
two = record {
  map = (0, 5) ∷ (1, 7) ∷ [];
  parent = 0 ∷ 1 ∷ [];
  size = 1 ∷ 1 ∷ [];
  next = 0 ∷ 1 ∷ [];
}

abbrev joined : Sets ℕ
joined = record { map = (1, 12) ∷ []; parent = 1 ∷ 1 ∷ []; size = 1 ∷ 2 ∷ []; next = 1 ∷ 0 ∷ [] }

push_run : (push 1 new 5 ≡ some (0, one)) × (push 1 one 7 ≡ some (1, two)) × (push 1 two 9 ≡ none)
unfolding program
push_run = (refl, refl, refl)

union_run : union ◌+◌ two 0 1 ≡ some joined
unfolding program
union_run = refl

get_run : get joined 0 ≡ some (some 12, joined)
unfolding program
get_run = refl

push-Pushed_example : (s : Sets ℕ) × (push 4 new 5 ≡ some (0, s)) × Pushed new 5 s
push-Pushed_example = push-Pushed 4 new 5 (new-IsValid ℕ) (omega arith)

pushed-IsValid :
    (s next : Sets ℕ) (t i : ℕ)
    → IsValid s
    → length s.parent ≤ 1
    → push 1 s t ≡ some (i, next)
    → IsValid next
pushed-IsValid s next t i v h run =
    let (s', run', pushed) = push-Pushed 1 s t v h in
    let same : s' ≡ next = cc in subst IsValid same pushed.valid

one-IsValid : IsValid one
one-IsValid = pushed-IsValid new one 5 0 (new-IsValid ℕ) (omega arith) push_run.0

two-IsValid : IsValid two
two-IsValid = pushed-IsValid one two 7 1 one-IsValid (omega arith) push_run.1

union-Joined_example : (s : Sets ℕ) × (union ◌+◌ two 0 1 ≡ some s) × Unites ◌+◌ two 0 1 s
union-Joined_example = union-Joined ◌+◌ two 0 1 two-IsValid (omega arith) (omega arith)

same_set-Same_example :
    (b : Bool) × (s : Sets ℕ) × (same_set two 0 1 ≡ some (b, s))
    × IsValid s
    × ((x y : ℕ) → Same s.parent x y ↔ Same two.parent x y)
    × ((b ≡ true) ↔ Same two.parent 0 1)
same_set-Same_example = same_set-Same two 0 1 two-IsValid (omega arith) (omega arith)
