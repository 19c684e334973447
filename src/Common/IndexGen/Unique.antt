-- ===== src/Common/IndexGen/Unique.antt =====
-- No index is handed out twice.
use liquid_rust.Base.{ℕ, ◌+◌, ◌%◌, inl, inr, Bool-cases, leb, ◌≤◌, ◌<◌, List, [], ◌∷◌, arith, ◌≡◌}
use liquid_rust.Common.IndexGen.{word, Op, fresh_call, skip_call, fresh, skip, run}

-- How far a sequence of calls moves the counter.
abbrev pub distance : List Op → ℕ
distance [] = 0
distance (fresh_call ∷ ops) = 1 + distance ops
distance (skip_call n ∷ ops) = n + distance ops

-- Each index is larger than those before it, the first at least `lo`, and all below `hi`.
abbrev pub Ascending : ℕ → ℕ → List ℕ → Type 0
Ascending lo hi [] = Unit
Ascending lo hi (i ∷ is) = (lo ≤ i) × (i < hi) × Ascending (i + 1) hi is

Ascending-weaken :
    (lo lo' hi : ℕ) (is : List ℕ) → lo ≤ lo' → Ascending lo' hi is → Ascending lo hi is
Ascending-weaken lo lo' hi [] h a = tt
Ascending-weaken lo lo' hi (i ∷ is) h a = (omega arith, a.1, a.2)

run-Ascending_fresh :
    (m : ℕ) (ops : List Op) (count hi : ℕ)
    → count + 1 < word
    → count < hi
    → Ascending (count + 1) hi (run m ops (count + 1))
    → Ascending count hi (run m (fresh_call ∷ ops) count)
unfolding run fresh
run-Ascending_fresh m ops count hi h l ih =
    let next : (count + 1) % word ≡ count + 1 = omega arith in
    elim (Bool-cases (leb count m)) [
      | inl fits ↦ rw (fits, run) (rw next (omega arith, l, ih))
      | inr above ↦
          rw (above, run) (rw next (Ascending-weaken count (count + 1) hi _ (omega arith) ih))
    ]

-- As long as the counter does not wrap around, the indices that any interleaving of `fresh` and
-- `skip` calls hands out are strictly ascending, so pairwise different, start at the counter's value
-- and stay below where it ends.
pub run-Ascending :
    (max_index : ℕ) (ops : List Op) (count : ℕ)
    → count + distance ops < word
    → Ascending count (count + distance ops) (run max_index ops count)
unfolding run fresh skip
run-Ascending m [] count h = tt
run-Ascending m (fresh_call ∷ ops) count h =
    let ih = run-Ascending m ops (count + 1) (omega arith) in
    let total : count + 1 + distance ops ≡ count + (1 + distance ops) = omega arith in
    run-Ascending_fresh m ops count _ (omega arith) (omega arith) (rw total at ih)
run-Ascending m (skip_call n ∷ ops) count h =
    let ih = run-Ascending m ops (count + n) (omega arith) in
    let total : count + n + distance ops ≡ count + (n + distance ops) = omega arith in
    let next : (count + n) % word ≡ count + n = omega arith in
    rw next (Ascending-weaken count (count + n) _ _ (omega arith) (rw total at ih))
