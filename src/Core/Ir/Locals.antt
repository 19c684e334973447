-- ===== src/Core/Ir/Locals.antt =====
-- The iterators over the locals of a body, liquid-rust-core/src/ir.rs.
use liquid_rust.Base.{ℕ, zero, suc, ◌+◌, ◌-◌, ◌<◌, ◌≡◌, refl, sym, ap, ◌++◌, ◌∷◌, arith}
use liquid_rust.Core.Ir.{Body, locals, args_iter, vars_and_temps_iter}

-- A range of `total` locals from `first` on, split behind the `m` first ones.
locals-append :
    (first m n middle total : ℕ)
    → middle ≡ first + m
    → total ≡ m + n
    → locals first total ≡ locals first m ++ locals middle n
locals-append first zero n middle total hm ht =
    let em : middle ≡ first = omega arith in let et : total ≡ n = omega arith in rw (em, et) refl
locals-append first (suc m) n middle total hm ht =
    let et : total ≡ suc (m + n) = omega arith in
    rw et (ap (λ l. first ∷ l) (locals-append (suc first) m n middle (m + n) (omega arith) refl))

-- In a body with more locals than arguments, the place of the result, the arguments and the variables
-- and temporaries are all the locals, each of them once and in order.
pub args_iter-vars_and_temps_iter :
    (body : Body)
    → body.arg_count < body.nlocals
    → 0 ∷ (args_iter body ++ vars_and_temps_iter body) ≡ locals 0 body.nlocals
unfolding args_iter vars_and_temps_iter
args_iter-vars_and_temps_iter body h = sym (
    locals-append 0 (suc body.arg_count) (body.nlocals - (body.arg_count + 1)) (body.arg_count + 1)
      body.nlocals (omega arith) (omega arith))
