-- ===== src/Base/Maps.antt =====
-- A hash map as an association list with one entry for a key. The list's order stands for the order of
-- iteration, which a hash map leaves open.
use mathlib.Core.Path.{◌≡◌, refl, sym, ◌∙◌}
use mathlib.Core.Logic.{◌≢◌, ite}
use mathlib.Core.List.{List, [], ◌∷◌, map}
use mathlib.Core.Option.{Option, none, some}

module _ {ℓ κ} {K : Type ℓ} {V : Type κ} (same : Discrete K) where
  -- `get`
  unfoldable pub find : List (K × V) → K → Option V
  find [] k = none
  find ((k', v) ∷ m) k = ite (same k' k) (some v) (find m k)

  -- `insert`: the old entry of the key is overwritten.
  unfoldable pub insert : List (K × V) → K → V → List (K × V)
  insert [] k v = (k, v) ∷ []
  insert ((k', v') ∷ m) k v =
      let rest = insert m k v in ite (same k' k) ((k, v) ∷ m) ((k', v') ∷ rest)

  -- The entry in front is that of the key, or it is not.
  find-here : (m : List (K × V)) (k j : K) (v : V) → k ≡ j → find ((k, v) ∷ m) j ≡ some v
  unfolding find
  find-here m k j v h = elim (same k j) as (λ d. ite d (some v) (find m j) ≡ some v) [
    | yes _ ↦ refl
    | no n ↦ absurd (n h)
  ]

  find-there : (m : List (K × V)) (k j : K) (v : V) → k ≢ j → find ((k, v) ∷ m) j ≡ find m j
  unfolding find
  find-there m k j v h = elim (same k j) as (λ d. ite d (some v) (find m j) ≡ find m j) [
    | yes e ↦ absurd (h e)
    | no _ ↦ refl
  ]

  pub find-insert : (m : List (K × V)) (k : K) (v : V) → find (insert m k v) k ≡ some v
  unfolding insert
  find-insert [] k v = find-here [] k k v refl
  find-insert ((k', v') ∷ m) k v =
      elim (same k' k) as (λ d. find (ite d ((k, v) ∷ m) ((k', v') ∷ insert m k v)) k ≡ some v) [
        | yes _ ↦ find-here m k k v refl
        | no n ↦ find-there (insert m k v) k' k v' n ∙ find-insert m k v
      ]

  pub find-insert_other :
      (m : List (K × V)) (k j : K) (v : V) → k ≢ j → find (insert m k v) j ≡ find m j
  unfolding insert
  find-insert_other [] k j v h = find-there [] k j v h
  find-insert_other ((k', v') ∷ m) k j v h =
      elim (same k' k)
        as (λ d. find (ite d ((k, v) ∷ m) ((k', v') ∷ insert m k v)) j ≡ find ((k', v') ∷ m) j) [
          | yes e ↦ find-there m k j v h ∙ sym (find-there m k' j v' (λ e'. h (sym e ∙ e')))
          | no n ↦ elim (same k' j) [
            | yes e ↦ find-here (insert m k v) k' j v' e ∙ sym (find-here m k' j v' e)
            | no n' ↦
                find-there (insert m k v) k' j v' n'
                ∙ find-insert_other m k j v h
                ∙ sym (find-there m k' j v' n')
          ]
        ]

-- `keys`
abbrev pub keys {ℓ κ} : {K : Type ℓ} {V : Type κ} → List (K × V) → List K
keys m = map (λ (k, v). k) m
