-- ===== src/Common/DisjointSets/Partition.antt =====
-- `union` of liquid-rust-common/src/disjoint_sets.rs refines the union of two classes of a partition.
use liquid_rust.Base.{
  ℕ, List, some, ◌≡◌, ◌≢◌, sym, ap, ◌∙◌, subst, arith, length, get_elem?, set, ℕ_discrete, find,
  ◌⊎◌, inl, inr, ◌↔◌,
}
use liquid_rust.Common.DisjointSets.{Sets, attach}
use liquid_rust.Common.DisjointSets.Roots.{Root, Root-own, parent_of, Root-unique, length-set}
use liquid_rust.Common.DisjointSets.Attach.{
  winner, winner_lem, winner_child, winner_other, attached-Root,
}
use liquid_rust.Common.DisjointSets.Valid.{IsValid, bound_of}
use liquid_rust.Common.DisjointSets.Union.{apart, own, attach-IsValid}

-- Two elements of one set.
abbrev pub Same : List ℕ → ℕ → ℕ → Type 0
Same parent x y = (r : ℕ) × Root parent r x × Root parent r y

-- `t` is the value of the set of `x`.
abbrev pub HasValue : {T : Type 0} → Sets T → ℕ → T → Type 0
HasValue s x t = (r : ℕ) × Root s.parent r x × (find ℕ_discrete s.map r ≡ some t)

-- Two elements of one set when those of `i` and `j` are joined.
abbrev pub Joined : List ℕ → ℕ → ℕ → ℕ → ℕ → Type 0
Joined parent i j x y =
    Same parent x y ⊎ ((Same parent x i × Same parent y j) ⊎ (Same parent x j × Same parent y i))

module _ {T : Type 0} (s : Sets T) (v : IsValid s) (i j r1 r2 : ℕ) (h1 : Root s.parent r1 i)
    (h2 : Root s.parent r2 j) (differ : r1 ≢ r2) (root child : ℕ)
    (pair : ((root ≡ r2) × (child ≡ r1)) ⊎ ((root ≡ r1) × (child ≡ r2))) (merge : T → T → T) where
  abbrev after : List ℕ
  after = set s.parent child root

  own1 : get_elem? s.parent r1 ≡ some r1
  own1 = Root-own h1

  own2 : get_elem? s.parent r2 ≡ some r2
  own2 = Root-own h2

  image : (r x : ℕ) → Root s.parent r x → Root after (winner root child r) x
  image r x h =
      (attached-Root s.parent root child (apart merge s v r1 r2 root child differ own1 own2 pair)
        (own merge s v r1 r2 root child differ own1 own2 pair).0
        (own merge s v r1 r2 root child differ own1 own2 pair).1 r x h).0

  winner_both : (winner root child r1 ≡ root) × (winner root child r2 ≡ root)
  winner_both = elim pair [
    | inl (a, b) ↦ (
      winner_child root child r1 (sym b),
      winner_other root child r2 (λ e. differ (sym (e ∙ b))) ∙ sym a,
    )
    | inr (a, b) ↦ (
      winner_other root child r1 (λ e. differ (e ∙ b)) ∙ sym a,
      winner_child root child r2 (sym b),
    )
  ]

  old_root : (r x : ℕ) → Root after r x → (q : ℕ) × Root s.parent q x × (winner root child q ≡ r)
  old_root r x h =
      let (p, e) = parent_of h in
      let b = bound_of after x e in
      let l = length-set s.parent child root in
      let (q, k, h', _, _) = v.rooted x (omega arith) in (q, h', Root-unique (image q x h') h)

  to_Joined : (x y : ℕ) → Same after x y → Joined s.parent i j x y
  to_Joined x y (r, hx, hy) =
      let (qx, kx, ex) = old_root r x hx in
      let (qy, ky, ey) = old_root r y hy in
      elim (winner_lem root child qx qy (ex ∙ sym ey)) [
        | inl e ↦ inl (qx, kx, subst (λ q. Root s.parent q y) (sym e) ky)
        | inr (inl (a, b)) ↦ elim pair [
          | inl (c, d) ↦ inr (
              inr (
                (r2, subst (λ q. Root s.parent q x) (a ∙ c) kx, h2),
                (r1, subst (λ q. Root s.parent q y) (b ∙ d) ky, h1),
              ))
          | inr (c, d) ↦ inr (
              inl (
                (r1, subst (λ q. Root s.parent q x) (a ∙ c) kx, h1),
                (r2, subst (λ q. Root s.parent q y) (b ∙ d) ky, h2),
              ))
        ]
        | inr (inr (a, b)) ↦ elim pair [
          | inl (c, d) ↦ inr (
              inl (
                (r1, subst (λ q. Root s.parent q x) (a ∙ d) kx, h1),
                (r2, subst (λ q. Root s.parent q y) (b ∙ c) ky, h2),
              ))
          | inr (c, d) ↦ inr (
              inr (
                (r2, subst (λ q. Root s.parent q x) (a ∙ d) kx, h2),
                (r1, subst (λ q. Root s.parent q y) (b ∙ c) ky, h1),
              ))
        ]
      ]

  moved : (r z x : ℕ) → Root s.parent r z → Same s.parent x z → Root after (winner root child r) x
  moved r z x h (q, hx, hz) = image r x (subst (λ q. Root s.parent q x) (Root-unique hz h) hx)

  of_Joined : (x y : ℕ) → Joined s.parent i j x y → Same after x y
  of_Joined x y (inl (r, hx, hy)) = (winner root child r, image r x hx, image r y hy)
  of_Joined x y (inr (inl (a, b))) = (
    root,
    subst (λ q. Root after q x) winner_both.0 (moved r1 i x h1 a),
    subst (λ q. Root after q y) winner_both.1 (moved r2 j y h2 b),
  )
  of_Joined x y (inr (inr (a, b))) = (
    root,
    subst (λ q. Root after q x) winner_both.1 (moved r2 j x h2 a),
    subst (λ q. Root after q y) winner_both.0 (moved r1 i y h1 b),
  )

  -- What `union` promises of the state behind it.
  pub attach-Joined :
      (s' : Sets T) × (attach merge s r1 r2 root child ≡ some s')
      × IsValid s'
      × (length s'.parent ≡ length s.parent)
      × ((x y : ℕ) → Same s'.parent x y ↔ Joined s.parent i j x y)
      × ((t1 : T) × (t2 : T) × HasValue s i t1 × HasValue s j t2 × HasValue s' i (merge t1 t2))
  attach-Joined =
      let (s', e, valid, parents, (t1, t2, f1, f2, f)) =
        attach-IsValid merge s v r1 r2 root child differ own1 own2 pair in
      let at_i : Root after root i = subst (λ q. Root after q i) winner_both.0 (image r1 i h1) in
      (
        s',
        e,
        valid,
        ap length parents ∙ length-set s.parent child root,
        (λ x y.
            subst (λ p. Same p x y ↔ Joined s.parent i j x y) (sym parents)
              (to_Joined x y, of_Joined x y)),
        (
          t1,
          t2,
          (r1, h1, f1),
          (r2, h2, f2),
          (root, subst (λ p. Root p root i) (sym parents) at_i, f),
        ),
      )
