-- ===== src/Common/DisjointSets/Push.antt =====
-- `new` and `push` of liquid-rust-common/src/disjoint_sets.rs: a new element is a set of its own.
use liquid_rust.Base.{
  ℕ, zero, suc, ◌+◌, ◌<◌, ◌≤◌, List, [], ◌∷◌, ◌++◌, some, ◌≡◌, ◌≢◌, refl, sym, ap, ◌∙◌, subst,
  arith, length, length-append, get_elem?, ℕ_discrete, find, insert, find-insert, find-insert_other,
  ◌↔◌, ◌⊎◌, inl, inr, leb, true,
}
use liquid_rust.Common.DisjointSets.{Sets, new, add, push}
use liquid_rust.Common.DisjointSets.Roots.{
  Root, here, step, depth, parent_of, Root-unique, Root-own,
}
use liquid_rust.Common.DisjointSets.Valid.{IsValid, bound_of}
use liquid_rust.Common.DisjointSets.Partition.{Same, HasValue}

get_elem-append : (xs ys : List ℕ) (i : ℕ) → i < length xs → get_elem? (xs ++ ys) i ≡ get_elem? xs i
get_elem-append [] ys i b = absurd (omega arith)
get_elem-append (x ∷ xs) ys zero b = refl
get_elem-append (x ∷ xs) ys (suc i) b = get_elem-append xs ys i (omega arith)

get_elem-last : (xs : List ℕ) (v : ℕ) → get_elem? (xs ++ (v ∷ [])) (length xs) ≡ some v
get_elem-last [] v = refl
get_elem-last (x ∷ xs) v = get_elem-last xs v

pub new-IsValid : (T : Type 0) → IsValid (new {T = T})
new-IsValid T = record {
  rooted = λ x b. absurd (omega arith);
  entries = λ r e. absurd (cc);
  size_length = refl;
  next_length = refl;
}

module _ (parent : List ℕ) where
  abbrev longer : List ℕ
  longer = parent ++ (length parent ∷ [])

  Root-longer : (r x : ℕ) (h : Root parent r x) → (h' : Root longer r x) × (depth h' ≤ depth h)
  Root-longer r x (here e h) =
      (here e (get_elem-append parent _ r (bound_of parent r h) ∙ h), omega arith)
  Root-longer r x (step {p} h n k) =
      let (k', b) = Root-longer r p k in
      (step (get_elem-append parent _ x (bound_of parent x h) ∙ h) n k', omega arith)

  own_last : Root longer (length parent) (length parent)
  own_last = here refl (get_elem-last parent (length parent))

  length-longer : length longer ≡ suc (length parent)
  length-longer = length-append parent (length parent ∷ []) ∙ omega arith

module _ {T : Type 0} (s : Sets T) (t : T) (v : IsValid s) where
  abbrev n : ℕ
  n = length s.parent

  size_old :
      (r : ℕ) {k : ℕ} → get_elem? s.size r ≡ some k → get_elem? (s.size ++ (1 ∷ [])) r ≡ some k
  size_old r e = get_elem-append s.size _ r (bound_of s.size r e) ∙ e

  size_last : get_elem? (s.size ++ (1 ∷ [])) n ≡ some 1
  size_last =
      subst (λ i. get_elem? (s.size ++ (1 ∷ [])) i ≡ some 1) v.size_length (get_elem-last s.size 1)

  longer-rooted :
      (x : ℕ)
      → x < suc n
      → (r : ℕ) × (k : ℕ) × (h : Root (longer s.parent) r x) × (get_elem? (s.size ++ (1 ∷ [])) r
          ≡ some k)
        × (depth h < k)
  longer-rooted x b = elim (ℕ_discrete n x) [
    | yes e ↦ (n, 1, here (sym e) (get_elem-last s.parent n), size_last, omega arith)
    | no m ↦
        let (r, k, h, e, d) = v.rooted x (omega arith) in
        let (h', d') = Root-longer s.parent r x h in (r, k, h', size_old r e, omega arith)
  ]

  longer-entries :
      (r : ℕ)
      → get_elem? (longer s.parent) r ≡ some r
      → (t' : T) × (find ℕ_discrete (insert ℕ_discrete s.map n t) r ≡ some t')
  longer-entries r e = elim (ℕ_discrete n r) [
    | yes i ↦ (
      t,
      subst (λ r. find ℕ_discrete (insert ℕ_discrete s.map n t) r ≡ some t) i
          (find-insert ℕ_discrete s.map n t),
    )
    | no m ↦
        let b = bound_of (longer s.parent) r e in
        let l = length-longer s.parent in
        let (t', f) = v.entries r (sym (get_elem-append s.parent _ r (omega arith)) ∙ e) in
        (t', find-insert_other ℕ_discrete s.map n r t m ∙ f)
  ]

  add-IsValid : IsValid (add s n t)
  unfolding add
  add-IsValid = record {
    rooted = λ x b. longer-rooted x (rw (length-longer s.parent) at b);
    entries = longer-entries;
    size_length =
        length-append s.size (1 ∷ [])
        ∙ ap (λ k. k + 1) v.size_length
        ∙ sym (length-append s.parent (n ∷ []));
    next_length =
        length-append s.next (n ∷ [])
        ∙ ap (λ k. k + 1) v.next_length
        ∙ sym (length-append s.parent (n ∷ []));
  }

  Root-shorter : (r x : ℕ) → Root (longer s.parent) r x → x ≢ n → Root s.parent r x
  Root-shorter r x h m =
      let (p, e) = parent_of h in
      let b = bound_of (longer s.parent) x e in
      let l = length-longer s.parent in
      let (r', k, h', _, _) = v.rooted x (omega arith) in
      let (h'', _) = Root-longer s.parent r' x h' in
      subst (λ r. Root s.parent r x) (Root-unique h'' h) h'

  -- The root of an old element is not the new one.
  Root-differs : (r x : ℕ) → Root (longer s.parent) r x → x ≢ n → r ≢ n
  Root-differs r x h m =
      let b = bound_of s.parent r (Root-own (Root-shorter r x h m)) in λ e. absurd (omega arith)

  Root-last : (r x : ℕ) → Root (longer s.parent) r x → x ≡ n → r ≡ n
  Root-last r x h e = Root-unique (subst (λ x. Root (longer s.parent) r x) e h) (own_last s.parent)

  Same-longer : (x y : ℕ) → Same (longer s.parent) x y ↔ (Same s.parent x y ⊎ ((x ≡ n) × (y ≡ n)))
  Same-longer x y = (to, from)
    where
      to : {x y : ℕ} → Same (longer s.parent) x y → Same s.parent x y ⊎ ((x ≡ n) × (y ≡ n))
      to {x} {y} (r, a, b) = elim (ℕ_discrete x n) [
        | yes e ↦ elim (ℕ_discrete y n) [
          | yes e' ↦ inr (e, e')
          | no m ↦ absurd (Root-differs r y b m (Root-last r x a e))
        ]
        | no m ↦ elim (ℕ_discrete y n) [
          | yes e ↦ absurd (Root-differs r x a m (Root-last r y b e))
          | no m' ↦ inl (r, Root-shorter r x a m, Root-shorter r y b m')
        ]
      ]

      from : {x y : ℕ} → Same s.parent x y ⊎ ((x ≡ n) × (y ≡ n)) → Same (longer s.parent) x y
      from {x} {y} (inl (r, a, b)) =
          (r, (Root-longer s.parent r x a).0, (Root-longer s.parent r y b).0)
      from (inr (e, e')) =
          (n, here e (get_elem-last s.parent n), here e' (get_elem-last s.parent n))

-- What `push` does to a map: the new index is in a set of its own, which has the given value, and the
-- other sets are those of before.
pub record Pushed {T : Type 0} (s : Sets T) (t : T) (s' : Sets T) : Type 0 where
  pub valid : IsValid s'
  pub value : HasValue s' (length s.parent) t
  pub classes :
      (x y : ℕ)
      → Same s'.parent x y ↔ (Same s.parent x y ⊎ ((x ≡ length s.parent) × (y ≡ length s.parent)))

-- `push` on a valid map does not panic, where the index type has an index for one more element, gives
-- the next index and leaves a valid map. The new index is in a set of its own, which has the given
-- value, and the other sets are those of before.
pub push-Pushed :
    {T : Type 0} (max_index : ℕ) (s : Sets T) (t : T)
    → IsValid s
    → length s.parent ≤ max_index
    → (s' : Sets T) × (push max_index s t ≡ some (length s.parent, s')) × Pushed s t s'
unfolding push
push-Pushed max_index s t v h =
    let fits : leb (length s.parent) max_index ≡ true = ground arith in
    (
      add s (length s.parent) t,
      rw fits refl,
      record {
        valid = add-IsValid s t v;
        value =
            unfold add in
            (length s.parent, own_last s.parent, find-insert ℕ_discrete s.map (length s.parent) t);
        classes = unfold add in Same-longer s t v;
      },
    )
