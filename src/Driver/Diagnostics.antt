-- ===== src/Driver/Diagnostics.antt =====
-- `Diagnostics` of liquid-rust-driver/src/resolve.rs, and the shape of the functions that report
-- through it: they change a state and the diagnostics, and give a value, `Err(ErrorReported)` or a
-- panic (`none`).
pub mod Honest
pub mod Inversion
use liquid_rust.Base.{ℕ, ◌+◌, List, [], ◌∷◌, ◌++◌, Option, none, some, ltb, ◌==◌, if◌then◌else◌}
use liquid_rust.Common.Iter.{Result, ok, err, ErrorReported, error_reported}
use liquid_rust.Typeck.Ty.{Symbol}

-- The structs of the module `errors`, with the name that each message shows.
pub data Error : Type 0 where
  unsupported_signature : Error
  duplicate_generic_param : Symbol → Error
  unresolved_sort : Symbol → Error
  unresolved_var : Symbol → Error
  unresolved_loc : Symbol → Error
  unresolved_path : Symbol → Error
  refined_type_param : Error
  int_too_large : Error
  unexpected_literal : Error

-- `reports` is what the session has emitted.
pub record Diagnostics : Type 0 where
  pub errors : ℕ
  pub reports : List Error

-- `Diagnostics::new`, in a session that has emitted nothing yet
abbrev pub new : Diagnostics
new = record { errors = 0; reports = [] }

abbrev pub emit_err : Error → Diagnostics → Diagnostics
emit_err e d = record { errors = d.errors + 1; reports = d.reports ++ (e ∷ []) }

-- What a function over a state `X` gives.
abbrev pub Run : Type 0 → Type 0 → Type 0
Run X T = Option (Result T ErrorReported × (X × Diagnostics))

-- `raise`
abbrev pub raise : {X T : Type 0} → X × Diagnostics → Run X T
raise (x, d) =
    if ltb 0 d.errors then some (err error_reported, (x, record d { errors = 0 })) else none

-- `emit_err(e).raise()`
abbrev pub reject : {X T : Type 0} → Error → X × Diagnostics → Run X T
reject e (x, d) = raise (x, emit_err e d)

-- `Drop for Diagnostics`: the result and what was emitted.
abbrev pub drop : {X T : Type 0} → Run X T → Option (Result T ErrorReported × List Error)
drop none = none
drop (some (r, (x, d))) = if d.errors == 0 then some (r, d.reports) else none

abbrev pub value : {X T : Type 0} → T → X × Diagnostics → Run X T
value t s = some (ok t, s)

-- A value, and the rest of the function behind its `?`.
abbrev pub and_then : {X T U : Type 0} → Run X T → (T → X × Diagnostics → Run X U) → Run X U
and_then none k = none
and_then (some (ok t, s)) k = k t s
and_then (some (err e, s)) k = some (err e, s)

abbrev pub zip :
    {T U V : Type 0}
    → (T → U → V)
    → Result T ErrorReported
    → Result U ErrorReported
    → Result V ErrorReported
zip f (ok t) (ok u) = ok (f t u)
zip f (ok t) (err e) = err e
zip f (err e) r = err e

abbrev pub with_first :
    {X T U V : Type 0} → (T → U → V) → Result T ErrorReported → Run X U → Run X V
with_first f r none = none
with_first f r (some (q, s)) = some (zip f r q, s)

-- Two results, of which the second is computed whatever the first is, and then `?` on both.
abbrev pub both : {X T U V : Type 0} → (T → U → V) → Run X T → (X × Diagnostics → Run X U) → Run X V
both f none k = none
both f (some (r, s)) k = with_first f r (k s)
