-- ===== src/Driver/Diagnostics/Inversion.antt =====
-- Where a function that reports through `Diagnostics` of liquid-rust-driver/src/resolve.rs gives a value,
-- its parts gave one.
use liquid_rust.Base.{◌+◌, none, some, ◌≡◌, refl, Bool, true, false, ltb, if◌then◌else◌}
use liquid_rust.Common.Iter.{Result, ok, err, ErrorReported, error_reported}
use liquid_rust.Driver.Diagnostics.{
  Error, Diagnostics, Run, reject, value, and_then, with_first, both,
}

abbrev pub Gives : {X T : Type 0} → Run X T → T → X × Diagnostics → Type 0
Gives m t s = m ≡ some (ok t, s)

pub Gives-value :
    {X T : Type 0} {t u : T} {s s' : X × Diagnostics} → Gives (value t s) u s' → (t ≡ u) × (s ≡ s')
Gives-value h = (cc, cc)

pub reject_inv :
    {X T : Type 0} (e : Error) (s : X × Diagnostics) {t : T} {s' : X × Diagnostics}
    → ¬ Gives (reject e s) t s'
reject_inv e (x, d) h = never (ltb 0 (d.errors + 1)) _ h
  where
    never :
        {X T : Type 0} (b : Bool) (p : X × Diagnostics) {s : X × Diagnostics} {t : T}
        → ¬ Gives (if b then some (err error_reported, p) else none) t s
    never true p h = cc
    never false p h = cc

pub and_then_inv :
    {X T U : Type 0} (m : Run X T) (k : T → X × Diagnostics → Run X U) {u : U}
    {s' : X × Diagnostics}
    → Gives (and_then m k) u s'
    → (t : T) × (s : X × Diagnostics) × Gives m t s × Gives (k t s) u s'
and_then_inv none k h = absurd (cc)
and_then_inv (some (ok t, s)) k h = (t, s, refl, h)
and_then_inv (some (err e, s)) k h = absurd (cc)

module _ {X T U V : Type 0} (f : T → U → V) where
  with_first_inv :
      (r : Result T ErrorReported) (m : Run X U) {v : V} {s' : X × Diagnostics}
      → Gives (with_first f r m) v s'
      → (t : T) × (u : U) × (r ≡ ok t) × Gives m u s' × (f t u ≡ v)
  with_first_inv r none h = absurd (cc)
  with_first_inv (ok t) (some (ok u, s)) {v} {s'} h =
      let e : s ≡ s' = cc in (t, u, refl, rw e refl, cc)
  with_first_inv (ok t) (some (err e, s)) h = absurd (cc)
  with_first_inv (err e) (some (r, s)) h = absurd (cc)

  pub both_inv :
      (m : Run X T) (k : X × Diagnostics → Run X U) {v : V} {s' : X × Diagnostics}
      → Gives (both f m k) v s'
      → (t : T) × (u : U) × (s : X × Diagnostics) × Gives m t s × Gives (k s) u s' × (f t u ≡ v)
  both_inv none k h = absurd (cc)
  both_inv (some (r, s)) k h =
      let (t, u, e, g, e') = with_first_inv r (k s) h in (t, u, s, rw e refl, g, e')
