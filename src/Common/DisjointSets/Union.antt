-- ===== src/Common/DisjointSets/Union.antt =====
-- `union` of liquid-rust-common/src/disjoint_sets.rs against the partition into sets.
use liquid_rust.Base.{
  ℕ, ◌+◌, ◌<◌, List, [], ◌∷◌, some, ◌≡◌, ◌≢◌, refl, sym, ap, ◌∙◌, subst, arith, length, get_elem?,
  set, ℕ_discrete, find, insert, find-insert, find-insert_other, ◌⊎◌, inl, inr,
}
use liquid_rust.Common.DisjointSets.{Sets, remove, attach}
use liquid_rust.Common.DisjointSets.Roots.{
  Root, here, depth, Root-unique, get-set, get-set_other, length-set,
}
use liquid_rust.Common.DisjointSets.Attach.{
  winner, winner_child, winner_other, attached, attached-Root,
}
use liquid_rust.Common.DisjointSets.Valid.{IsValid, bound_of, get_elem-bound}

find-remove_other {κ} :
    {V : Type κ} (m : List (ℕ × V)) (k j : ℕ)
    → k ≢ j
    → find ℕ_discrete (remove m k) j ≡ find ℕ_discrete m j
unfolding find remove
find-remove_other [] k j n = refl
find-remove_other ((k', v) ∷ m) k j n = ground (arith, find-remove_other m k j n)

module _ {T : Type 0} (merge : T → T → T) (s : Sets T) (v : IsValid s) where
  pub size_of_root :
      (r : ℕ) → get_elem? s.parent r ≡ some r → (k : ℕ) × (get_elem? s.size r ≡ some k) × (0 < k)
  size_of_root r e =
      let (r', k, h, e', d) = v.rooted r (bound_of s.parent r e) in
      let same : r' ≡ r = Root-unique h (here refl e) in
      (k, subst (λ r. get_elem? s.size r ≡ some k) same e', omega arith)

  module _ (root1 root2 root child : ℕ) (differ : root1 ≢ root2)
      (own1 : get_elem? s.parent root1 ≡ some root1) (own2 : get_elem? s.parent root2 ≡ some root2)
      (pair : ((root ≡ root2) × (child ≡ root1)) ⊎ ((root ≡ root1) × (child ≡ root2))) where
    pub apart : root ≢ child
    apart e = elim pair [ inl (a, b) ↦ differ (omega arith) | inr (a, b) ↦ differ (omega arith) ]

    pub own : (get_elem? s.parent root ≡ some root) × (get_elem? s.parent child ≡ some child)
    own = elim pair [ inl (a, b) ↦ rw (a, b) (own2, own1) | inr (a, b) ↦ rw (a, b) (own1, own2) ]

    others : (x : ℕ) → x ≢ root → x ≢ child → (root1 ≢ x) × (root2 ≢ x)
    others x n m = elim pair [
      | inl (a, b) ↦ ((λ e. m (omega arith)), (λ e. n (omega arith)))
      | inr (a, b) ↦ ((λ e. n (omega arith)), (λ e. m (omega arith)))
    ]

    -- The state behind `attach`.
    abbrev pub joined : ℕ → ℕ → T → T → List ℕ → Sets T
    joined a b t1 t2 next = record {
      map = insert ℕ_discrete (remove (remove s.map root1) root2) root (merge t1 t2);
      parent = set s.parent child root;
      size = set s.size root (a + b);
      next = next;
    }

    module _ (a b : ℕ) (t1 t2 : T) (next : List ℕ) (size_root : get_elem? s.size root ≡ some a)
        (size_child : get_elem? s.size child ≡ some b) (positive : 0 < a)
        (next_length : length next ≡ length s.parent) where
      joined-rooted :
          (x : ℕ)
          → x < length s.parent
          → (r : ℕ) × (k : ℕ) × (h : Root (attached s.parent root child apart own.0 own.1) r x)
            × (get_elem? (set s.size root (a + b)) r ≡ some k)
            × (depth h < k)
      joined-rooted x bound =
          let (r, k, h, e, d) = v.rooted x bound in
          let (h', cases) = attached-Root s.parent root child apart own.0 own.1 r x h in
          elim cases [
            | inl (i, le) ↦
                let at : get_elem? s.size r ≡ get_elem? s.size child = ap (get_elem? s.size) i in
                let same : k ≡ b = cc in
                (
                  winner root child r,
                  a + b,
                  h',
                  ap (get_elem? (set s.size root (a + b))) (winner_child root child r i)
                      ∙ get-set s.size root (a + b) size_root,
                  omega arith,
                )
            | inr (n, le) ↦ elim (ℕ_discrete root r) [
              | yes i ↦
                  let at : get_elem? s.size r ≡ get_elem? s.size root =
                    ap (get_elem? s.size) (sym i) in
                  let same : k ≡ a = cc in
                  (
                    winner root child r,
                    a + b,
                    h',
                    ap (get_elem? (set s.size root (a + b))) (winner_other root child r n ∙ sym i)
                        ∙ get-set s.size root (a + b) size_root,
                    omega arith,
                  )
              | no m ↦ (
                winner root child r,
                k,
                h',
                ap (get_elem? (set s.size root (a + b))) (winner_other root child r n)
                    ∙ get-set_other s.size root r (a + b) m
                    ∙ e,
                omega arith,
              )
            ]
          ]

      joined-entries :
          (r : ℕ)
          → get_elem? (set s.parent child root) r ≡ some r
          → (t : T) × (find ℕ_discrete (joined a b t1 t2 next).map r ≡ some t)
      joined-entries r e = elim (ℕ_discrete root r) [
        | yes same ↦ (
          merge t1 t2,
          subst (λ r. find ℕ_discrete (joined a b t1 t2 next).map r ≡ some (merge t1 t2)) same
              (find-insert ℕ_discrete _ root (merge t1 t2)),
        )
        | no n ↦ elim (ℕ_discrete child r) [
          | yes same ↦
              let at = get-set s.parent child root own.1 in
              let at_r : get_elem? (set s.parent child root) r ≡ some root =
                subst (λ r. get_elem? (set s.parent child root) r ≡ some root) same at in
              let clash : root ≡ r = cc in absurd (n clash)
          | no m ↦
              let (n1, n2) = others r (λ e. n (sym e)) (λ e. m (sym e)) in
              let (t, found) = v.entries r (sym (get-set_other s.parent child r root m) ∙ e) in
              (
                t,
                find-insert_other ℕ_discrete _ root r (merge t1 t2) n
                    ∙ find-remove_other _ root2 r n2
                    ∙ find-remove_other s.map root1 r n1
                    ∙ found,
              )
        ]
      ]

      joined-IsValid : IsValid (joined a b t1 t2 next)
      joined-IsValid = record {
        rooted = λ x bound. joined-rooted x (rw (length-set s.parent child root) at bound);
        entries = joined-entries;
        size_length =
            length-set s.size root (a + b) ∙ v.size_length ∙ sym (length-set s.parent child root);
        next_length = next_length ∙ sym (length-set s.parent child root);
      }

    abbrev pub Merged : Sets T → Type 0
    Merged s' =
        (t1 : T) × (t2 : T) × (find ℕ_discrete s.map root1 ≡ some t1)
        × (find ℕ_discrete s.map root2 ≡ some t2)
        × (find ℕ_discrete s'.map root ≡ some (merge t1 t2))

    pub attach-IsValid :
        (s' : Sets T) × (attach merge s root1 root2 root child ≡ some s')
        × IsValid s'
        × (s'.parent ≡ set s.parent child root)
        × Merged s'
    unfolding attach
    attach-IsValid =
        let (a, size_root, positive) = size_of_root root own.0 in
        let (b, size_child, _) = size_of_root child own.1 in
        let bound1 = bound_of s.parent root1 own1 in
        let (n1, e1) = get_elem-bound s.next root1 (rw v.next_length bound1) in
        let bound2 = bound_of s.parent root2 own2 in
        let (n2, e2) = get_elem-bound s.next root2 (rw v.next_length bound2) in
        let (t1, f1) = v.entries root1 own1 in
        let (t2, f2) = v.entries root2 own2 in
        let f2' = find-remove_other s.map root1 root2 differ ∙ f2 in
        let next : List ℕ = set (set s.next root1 n2) root2 n1 in
        (
          joined a b t1 t2 next,
          rw (size_root, size_child, e1, e2, f1, f2', own.1) refl,
          joined-IsValid a b t1 t2 next size_root size_child positive (
              length-set (set s.next root1 n2) root2 n1
              ∙ length-set s.next root1 n2
              ∙ v.next_length),
          refl,
          (
            t1,
            t2,
            f1,
            f2,
            find-insert ℕ_discrete (remove (remove s.map root1) root2) root (merge t1 t2),
          ),
        )
