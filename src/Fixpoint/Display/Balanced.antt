-- ===== src/Fixpoint/Display/Balanced.antt =====
-- The printed constraints are balanced in their parentheses.
use liquid_rust.Base.{
  ℕ, zero, suc, ◌+◌, ◌%◌, ◌/◌, ◌<◌, ◌≡◌, refl, ◌∙◌, Bool, true, false, [], ◌∷◌, ◌++◌, append_assoc,
  Option, some, none, Text, decimal, digits, ◌==◌, ltb, if◌then◌else◌, arith, Bool-cases, inl, inr,
}
use liquid_rust.Common.Format.{newline}
use liquid_rust.Common.Format.Indent.{indent, write_str-push_str}
use liquid_rust.Fixpoint.Display.{parens, parens_if, padded}

-- The number of open parentheses behind a text that starts with `n` open ones; `none` where a
-- parenthesis is closed that was not opened.
unfoldable pub depth : ℕ → Text → Option ℕ
depth n [] = some n
depth n (c ∷ s) =
    let opened = depth (suc n) s in
    let closed : Option ℕ = elim n [ zero ↦ none | suc m ↦ depth m s ] in
    let other = depth n s in if c == b'(' then opened else if c == b')' then closed else other

-- Every parenthesis of the text is closed in it, and closes one of it.
pub record IsBalanced (t : Text) : Type 0 where
  pub skips : (n : ℕ) (rest : Text) → depth n (t ++ rest) ≡ depth n rest

pub IsBalanced-nil : IsBalanced []
IsBalanced-nil = record { skips = λ n rest. refl }

pub IsBalanced-append : {s t : Text} → IsBalanced s → IsBalanced t → IsBalanced (s ++ t)
IsBalanced-append {s} {t} hs ht = record {
  skips = λ n rest. rw append_assoc (hs.skips n (t ++ rest) ∙ ht.skips n rest);
}

-- A character other than a parenthesis.
pub IsBalanced-cons :
    {c : ℕ} {t : Text}
    → (c == b'(') ≡ false
    → (c == b')') ≡ false
    → IsBalanced t
    → IsBalanced (c ∷ t)
unfolding depth
IsBalanced-cons p q h = record { skips = λ n rest. rw (p, q) (h.skips n rest) }

-- A text in parentheses, up to the closing one.
pub IsBalanced-group :
    {s t : Text} → IsBalanced s → IsBalanced t → IsBalanced (b'(' ∷ (s ++ (b')' ∷ t)))
unfolding depth
IsBalanced-group {s} {t} hs ht = record {
  skips = λ n rest. rw append_assoc (hs.skips (suc n) (b')' ∷ (t ++ rest)) ∙ ht.skips n rest);
}

pub IsBalanced-parens : {t : Text} → IsBalanced t → IsBalanced (parens t)
IsBalanced-parens h = IsBalanced-group h IsBalanced-nil

pub IsBalanced-parens_if : (b : Bool) {t : Text} → IsBalanced t → IsBalanced (parens_if b t)
IsBalanced-parens_if true h = IsBalanced-parens h
IsBalanced-parens_if false h = h

IsBalanced-digit : (k : ℕ) → k < 10 → IsBalanced ((48 + k) ∷ [])
IsBalanced-digit k h = IsBalanced-cons (ground arith) (ground arith) IsBalanced-nil

IsBalanced-digits : (fuel k : ℕ) → IsBalanced (digits fuel k)
unfolding digits
IsBalanced-digits zero k = IsBalanced-nil
IsBalanced-digits (suc fuel) k = elim (Bool-cases (ltb k 10)) [
  | inl last ↦ rw last (IsBalanced-digit k (ground arith))
  | inr more ↦ rw more (
      IsBalanced-append (IsBalanced-digits fuel (k / 10)) (IsBalanced-digit (k % 10) (omega arith)))
]

pub IsBalanced-decimal : (k : ℕ) → IsBalanced (decimal k)
unfolding decimal
IsBalanced-decimal k = IsBalanced-digits (suc k) k

depth-cons :
    (c n : ℕ) (s t : Text) → ((m : ℕ) → depth m s ≡ depth m t) → depth n (c ∷ s) ≡ depth n (c ∷ t)
unfolding depth
depth-cons c zero s t h = ground (arith, h zero, h 1)
depth-cons c (suc n) s t h = ground (arith, h n, h (suc n), h (suc (suc n)))

-- Indentation writes no parenthesis.
depth-indent :
    (t : Text) (b : Bool) (n : ℕ) (rest : Text)
    → depth n ((indent b t).0 ++ rest) ≡ depth n (t ++ rest)
unfolding indent depth
depth-indent [] b n rest = refl
depth-indent (c ∷ t) true n rest =
    depth-cons c n ((indent (c == newline) t).0 ++ rest) (t ++ rest)
      λ m. depth-indent t (c == newline) m rest
depth-indent (c ∷ t) false n rest =
    depth-cons c n ((indent (c == newline) t).0 ++ rest) (t ++ rest)
      λ m. depth-indent t (c == newline) m rest

padded-indent : (t : Text) → padded t ≡ (indent false t).0
unfolding padded
padded-indent t = rw (write_str-push_str false t [], padded)

pub IsBalanced-padded : {t : Text} → IsBalanced t → IsBalanced (padded t)
IsBalanced-padded {t} h = record {
  skips = λ n rest. rw padded-indent (depth-indent t false n rest ∙ h.skips n rest);
}
