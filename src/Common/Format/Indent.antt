-- ===== src/Common/Format/Indent.antt =====
-- What `PadAdapter` writes, character by character.
use liquid_rust.Base.{
  ℕ, zero, suc, ◌≤◌, ◌<◌, ◌≡◌, refl, sym, ap, ◌∙◌, subst, Text, [], ◌∷◌, ◌++◌, Option, some, Bool,
  true, false, ◌==◌, if◌then◌else◌, length, arith, append_assoc, append-nil,
}
use mathlib.Core.Option
use liquid_rust.Common.Format.{
  newline, padding, push_str, before, after, split_line, Result, ok, err, Written, propagate,
  write_padding, write_loop, write_str,
}

-- The specification: three spaces in front of each character that begins a line.
unfoldable pub indent : Bool → Text → Text × Bool
indent on_newline [] = ([], on_newline)
indent on_newline (c ∷ s) =
    let (rest, state) = indent (c == newline) s in
    ((if on_newline then padding else []) ++ (c ∷ rest), state)

-- Writing from the state `b`, with the text cut behind its first line.
abbrev Cut : Bool → Text → ℕ × Bool → Text × Bool
Cut b s cut =
    let (rest, state) = indent cut.1 (after cut.0 s) in
    ((if b then padding else []) ++ (before cut.0 s ++ rest), state)

indent-split_line : (s : Text) → indent false s ≡ Cut false s (split_line s)
unfolding indent split_line
indent-split_line [] = refl
indent-split_line (c ∷ s) = ground (arith, indent-split_line s)

indent-Cut : (b : Bool) (c : ℕ) (s : Text) → indent b (c ∷ s) ≡ Cut b (c ∷ s) (split_line (c ∷ s))
unfolding indent split_line
indent-Cut b c s = ground (arith, indent-split_line s)

length-after : (n : ℕ) (s : Text) → length (after n s) ≤ length s
length-after zero s = omega arith
length-after (suc n) [] = omega arith
length-after (suc n) (c ∷ s) = omega (arith, length-after n s)

length-after_pos : (n c : ℕ) (s : Text) → 0 < n → length (after n (c ∷ s)) ≤ length s
length-after_pos zero c s h = absurd (omega arith)
length-after_pos (suc n) c s h = length-after n s

split_line_pos : (c : ℕ) (s : Text) → 0 < (split_line (c ∷ s)).0
unfolding split_line
split_line_pos c s = ground arith

-- A round consumes a character at least.
length-split_line : (c : ℕ) (s : Text) → length (after (split_line (c ∷ s)).0 (c ∷ s)) ≤ length s
length-split_line c s = length-after_pos (split_line (c ∷ s)).0 c s (split_line_pos c s)

-- A writer `inner` that, where it succeeds, has written the entire text
module _ {W : Type 0} (inner : Text → W → Result × W) (text : W → Text)
    (writes : (s : Text) (w w' : W) → inner s w ≡ (ok, w') → text w' ≡ text w ++ s) where
  -- `Wrote w (t, state) r`: to write `t` and be left in `state` has the outcome `r` from the writer `w`.
  -- Either all was written, or the inner writer failed on a piece of `t` when all of `t` in front of
  -- the piece was written.
  pub data Wrote (w : W) : Text × Bool → Written inner → Type 0 where
    all :
        {w' : W} {t : Text} {state : Bool}
        → text w' ≡ text w ++ t
        → Wrote w (t, state) (ok, (w', state))
    stopped :
        {w' : W} {t : Text} {state left : Bool} (w₁ : W) (front piece rest : Text)
        → t ≡ front ++ (piece ++ rest)
        → text w₁ ≡ text w ++ front
        → inner piece w₁ ≡ (err, w')
        → Wrote w (t, state) (err, (w', left))

  Wrote-after :
      {w w₁ : W} (p t : Text) {state : Bool} {r : Written inner}
      → text w₁ ≡ text w ++ p
      → Wrote w₁ (t, state) r
      → Wrote w (p ++ t, state) r
  Wrote-after {w} p t e (all h) = all (h ∙ ap (λ x. x ++ t) e ∙ append_assoc (text w) p t)
  Wrote-after {w} p t e (stopped w₂ front piece rest h k f) =
      stopped w₂ (p ++ front) piece rest
        (ap (λ x. p ++ x) h ∙ sym (append_assoc p front (piece ++ rest)))
        (k ∙ ap (λ x. x ++ front) e ∙ append_assoc (text w) p front) f

  -- The computation ends, with such an outcome.
  abbrev Writes : W → Text × Bool → Option (Written inner) → Type 0
  Writes w goal m = (r : Written inner) × (m ≡ some r) × Wrote w goal r

  propagate-Writes :
      (left : Bool) (p t : Text) (state : Bool) (w : W) (k : W → Option (Written inner))
      (r : Result × W)
      → inner p w ≡ r
      → ((w₁ : W) → Writes w₁ (t, state) (k w₁))
      → Writes w (p ++ t, state) (propagate inner left r k)
  propagate-Writes left p t state w k (ok, w₁) e f =
      let (r, h, done) = f w₁ in (r, h, Wrote-after p t (writes p w w₁ e) done)
  propagate-Writes left p t state w k (err, w₁) e f =
      ((err, (w₁, left)), refl, stopped w [] p t refl (sym (append-nil (text w))) e)

  padding-Writes :
      (b : Bool) (t : Text) (state : Bool) (w : W) (k : W → Option (Written inner))
      → ((w₁ : W) → Writes w₁ (t, state) (k w₁))
      → Writes w
          ((if b then padding else []) ++ t, state)
          (propagate inner b (write_padding inner b w) k)
  padding-Writes true t state w k f =
      propagate-Writes true padding t state w k (inner padding w) refl f
  padding-Writes false t state w k f = f w

  write_loop-Writes :
      (fuel : ℕ) (b : Bool) (s : Text) (w : W)
      → length s ≤ fuel
      → Writes w (indent b s) (write_loop inner fuel b s w)
  unfolding write_loop
  write_loop-Writes fuel b [] w h =
      unfold indent in ((ok, (w, b)), refl, all (sym (append-nil (text w))))
  write_loop-Writes zero b (c ∷ s) w h = absurd (omega arith)
  write_loop-Writes (suc fuel) b (c ∷ s) w h =
      let split = (split_line (c ∷ s)).0 in
      let ended = (split_line (c ∷ s)).1 in
      let goal = indent ended (after split (c ∷ s)) in
      subst (λ x. Writes w x (write_loop inner (suc fuel) b (c ∷ s) w)) (sym (indent-Cut b c s))
        (padding-Writes b (before split (c ∷ s) ++ goal.0) goal.1 w _ λ w₁.
          propagate-Writes ended (before split (c ∷ s)) goal.0 goal.1 w₁ _
            (inner (before split (c ∷ s)) w₁) refl
            λ w₂.
              write_loop-Writes fuel ended (after split (c ∷ s)) w₂
                (omega (arith, length-split_line c s)))

  -- A call of `write_str` ends. Where it succeeds, the inner writer's text has grown by the argument
  -- with three spaces in front of each line that it begins, at the line's first character and never
  -- after a final newline, and the state is "on a newline" exactly when the text ended in one, and as
  -- before for the empty text. Where it fails, the inner writer failed on a piece of that indented text
  -- when all in front of the piece was written. The inner writer is any one that has written the entire
  -- text of a call when the call succeeds.
  pub write_str-Wrote :
      (b : Bool) (s : Text) (w : W)
      → (r : Written inner) × (write_str inner b s w ≡ some r) × Wrote w (indent b s) r
  unfolding write_str
  write_str-Wrote b s w = write_loop-Writes (length s) b s w (omega arith)

-- The outcome for a `String`, which does not fail
abbrev Pushed : Text → Text × Bool → Written push_str → Type 0
Pushed out (t, state) r = r ≡ (ok, (out ++ t, state))

push_str-writes : (s out out' : Text) → push_str s out ≡ (ok, out') → out' ≡ out ++ s
push_str-writes s out out' h = cc

Wrote-Pushed :
    {out : Text} {goal : Text × Bool} {r : Written push_str}
    → Wrote push_str (λ t. t) push_str-writes out goal r
    → Pushed out goal r
Wrote-Pushed (all {state} h) = ap (λ x. (ok, (x, state))) h
Wrote-Pushed (stopped w₁ front piece rest h k f) = cc

pub write_str-push_str :
    (b : Bool) (s out : Text)
    → write_str push_str b s out ≡ some (ok, (out ++ (indent b s).0, (indent b s).1))
write_str-push_str b s out =
    let (r, h, wrote) = write_str-Wrote push_str (λ t. t) push_str-writes b s out in
    h ∙ ap some (Wrote-Pushed wrote)

indent-append :
    (b : Bool) (s t : Text)
    → indent b (s ++ t)
      ≡ ((indent b s).0 ++ (indent (indent b s).1 t).0, (indent (indent b s).1 t).1)
unfolding indent
indent-append b [] t = refl
indent-append b (c ∷ s) t = simp (indent-append (c == newline) s t, append_assoc)

-- For a `String` a call on a text is the calls on its parts, each from the state that the one before it
-- left.
pub write_str-append :
    (b : Bool) (s t out : Text)
    → write_str push_str b (s ++ t) out
      ≡ Option.bind
          (write_str push_str b s out)
          λ (_, (out', state)). write_str push_str state t out'
unfolding Option.bind
write_str-append b s t out = simp (write_str-push_str, indent-append, append_assoc)
