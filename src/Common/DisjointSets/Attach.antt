-- ===== src/Common/DisjointSets/Attach.antt =====
-- The change of a parent in `union` of liquid-rust-common/src/disjoint_sets.rs: a root becomes the child of
-- another one.
use liquid_rust.Base.{
  ℕ, suc, ◌≤◌, List, some, ◌≡◌, ◌≢◌, refl, sym, ap, ◌∙◌, subst, arith, get_elem?, set, ℕ_discrete,
  ◌⊎◌, inl, inr,
}
use mathlib.Core.Logic.{ite}
use liquid_rust.Common.DisjointSets.Roots.{Root, here, step, depth, get-set, get-set_other}

-- Which root stands for which.
abbrev pub winner : ℕ → ℕ → ℕ → ℕ
winner root child s = ite (ℕ_discrete s child) root s

pub winner_child : (root child s : ℕ) → s ≡ child → winner root child s ≡ root
winner_child root child s e = ground arith

pub winner_other : (root child s : ℕ) → s ≢ child → winner root child s ≡ s
winner_other root child s n = ground arith

pub winner_lem :
    (root child a b : ℕ)
    → winner root child a ≡ winner root child b
    → (a ≡ b) ⊎ (((a ≡ root) × (b ≡ child)) ⊎ ((a ≡ child) × (b ≡ root)))
winner_lem root child a b h = elim (ℕ_discrete a b) [
  | yes e ↦ inl e
  | no n ↦ elim (ℕ_discrete a child) [
    | yes e ↦ inr (inr (e, ground arith))
    | no m ↦ inr (inl (ground arith, ground arith))
  ]
]

module _ (parent : List ℕ) (root child : ℕ) (differ : root ≢ child)
    (own_root : get_elem? parent root ≡ some root)
    (own_child : get_elem? parent child ≡ some child) where
  abbrev pub attached : List ℕ
  attached = set parent child root

  -- A step of a path stays.
  link_kept : {z p : ℕ} → get_elem? parent z ≡ some p → p ≢ z → get_elem? attached z ≡ some p
  link_kept {z} {p} h n = elim (ℕ_discrete child z) [
    | yes i ↦
        let at : get_elem? parent child ≡ get_elem? parent z = ap (get_elem? parent) i in
        let clash : p ≡ z = cc in absurd (n clash)
    | no m ↦ get-set_other parent child z root m ∙ h
  ]

  attached-keeps :
      (s z : ℕ) (h : Root parent s z) → s ≢ child → (h' : Root attached s z) × (depth h' ≤ depth h)
  attached-keeps s z (here e h) n =
      (here e (get-set_other parent child s root (λ i. n (sym i)) ∙ h), omega arith)
  attached-keeps s z (step {p} h m k) n =
      let (k', b) = attached-keeps s p k n in (step (link_kept h m) m k', omega arith)

  attached-moves :
      (s z : ℕ) (h : Root parent s z)
      → s ≡ child
      → (h' : Root attached root z) × (depth h' ≤ suc (depth h))
  attached-moves s z (here e h) i =
      let link : get_elem? attached z ≡ some root =
        subst (λ y. get_elem? attached y ≡ some root) (sym (e ∙ i))
          (get-set parent child root own_child) in
      (
        step link (λ j. differ (j ∙ e ∙ i))
            (here refl (get-set_other parent child root root (λ i. differ (sym i)) ∙ own_root)),
        omega arith,
      )
  attached-moves s z (step {p} h m k) i =
      let (k', b) = attached-moves s p k i in (step (link_kept h m) m k', omega arith)

  -- Every element gets the root that stands for its old one.
  pub attached-Root :
      (s z : ℕ) (h : Root parent s z)
      → (h' : Root attached (winner root child s) z) × (((s ≡ child) × (depth h' ≤ suc (depth h)))
          ⊎ ((s ≢ child) × (depth h' ≤ depth h)))
  attached-Root s z h =
      elim (ℕ_discrete s child)
        as (λ d.
          (h' : Root attached (ite d root s) z) × (((s ≡ child) × (depth h' ≤ suc (depth h)))
            ⊎ ((s ≢ child) × (depth h' ≤ depth h)))) [
              | yes e ↦ let (h', b) = attached-moves s z h e in (h', inl (e, b))
              | no n ↦ let (h', b) = attached-keeps s z h n in (h', inr (n, b))
            ]
