-- ===== src/Driver/Lowering/Flow.antt =====
-- Lowering keeps the control flow: liquid-rust-driver/src/lowering.rs.
use liquid_rust.Base.{
  ℕ, List, [], ◌∷◌, ◌++◌, map, Option, none, some, ◌≡◌, refl, sym, ap, ◌∙◌, Outcome, ok, >>=-eq-ok,
}
use mathlib.Core.Option
use liquid_rust.Core.Ir as Ir
use liquid_rust.Core.Ir.{BasicBlock, SwitchTargets}
use liquid_rust.Driver.Mir as Mir
use liquid_rust.Driver.Lowering.{
  try_collect, lower_operand, lower_place, lower_callee, lower_destination, lower_terminator,
  lower_last, lower_statement, lower_basic_block_data, lower,
}

-- The block to which a call returns.
abbrev pub return_target : {A : Type 0} → Option (A × BasicBlock) → List BasicBlock
return_target none = []
return_target (some (_, bb)) = bb ∷ []

abbrev pub switch_successors : SwitchTargets → List BasicBlock
switch_successors targets = map (λ (_, bb). bb) targets.targets ++ (targets.otherwise ∷ [])

-- The blocks that can run after the end of a block, unwinding aside.
abbrev pub ir_successors : Ir.Terminator → List BasicBlock
ir_successors Ir.Terminator.return = []
ir_successors (Ir.Terminator.call _ _ _ destination) = return_target destination
ir_successors (Ir.Terminator.switch_int _ targets) = switch_successors targets
ir_successors (Ir.Terminator.goto target) = target ∷ []
ir_successors (Ir.Terminator.drop _ target) = target ∷ []

-- The same in MIR, for the terminators that lowering supports.
abbrev pub mir_successors : {Scalar : Type 0} → Mir.Terminator Scalar → List BasicBlock
mir_successors (Mir.Terminator.call _ _ destination) = return_target destination
mir_successors (Mir.Terminator.switch_int _ targets) = switch_successors targets
mir_successors (Mir.Terminator.goto target) = target ∷ []
mir_successors (Mir.Terminator.drop _ target) = target ∷ []
mir_successors _ = []

-- The successors of the end of a block, where it has one.
abbrev pub ir_block_successors : Ir.BasicBlockData → Option (List BasicBlock)
ir_block_successors b = Option.map ir_successors b.terminator

abbrev pub mir_block_successors :
    {Scalar : Type 0} → Mir.BasicBlockData Scalar → Option (List BasicBlock)
mir_block_successors b = Option.map mir_successors b.terminator

try_collect-map :
    {A B C : Type 0} (f : A → Outcome B) (g : A → C) (h : B → C)
    → ((a : A) (b : B) → f a ≡ ok b → h b ≡ g a)
    → (as' : List A) (bs : List B) → try_collect f as' ≡ ok bs
    → map h bs ≡ map g as'
unfolding try_collect
try_collect-map {B} f g h p [] bs e = let r : [] ≡ bs = cc in sym (ap (map h) r)
try_collect-map f g h p (a ∷ as') bs e =
    let (b, e1, e) = >>=-eq-ok (f a) _ e in
    let (bs', e2, e3) = >>=-eq-ok (try_collect f as') (λ bs. ok (b ∷ bs)) e in
    let r : b ∷ bs' ≡ bs = cc in
    sym (ap (map h) r) ∙ rw (p a b e1, try_collect-map f g h p as' bs' e2) refl

destination-return_target :
    (d : Option (Mir.Place × BasicBlock)) (d' : Option (Ir.Place × BasicBlock))
    → lower_destination d ≡ ok d'
    → return_target d' ≡ return_target d
unfolding lower_destination
destination-return_target none d' h = let r : none ≡ d' = cc in sym (ap return_target r)
destination-return_target (some (place, bb)) d' h =
    let (place', h1, h2) = >>=-eq-ok (lower_place place) (λ p. ok (some (p, bb))) h in
    let r : some (place', bb) ≡ d' = cc in sym (ap return_target r)

module _ {Scalar : Type 0} (size_of : Mir.Ty → Option ℕ) (to_bits : Scalar → ℕ → Option ℕ)
    (operand_ty : Mir.Operand Scalar → Mir.Ty) where
  terminator-successors :
      (t : Mir.Terminator Scalar) (t' : Ir.Terminator)
      → lower_terminator size_of to_bits operand_ty t ≡ ok t'
      → ir_successors t' ≡ mir_successors t
  unfolding lower_terminator
  terminator-successors Mir.Terminator.return t' h =
      let r : Ir.Terminator.return ≡ t' = cc in sym (ap ir_successors r)
  terminator-successors (Mir.Terminator.call func args destination) t' h =
      let ((did, substs), h1, h) = >>=-eq-ok (lower_callee (operand_ty func)) _ h in
      let (d', h2, h) = >>=-eq-ok (lower_destination destination) _ h in
      let (args', h3, h4) =
        >>=-eq-ok (try_collect (lower_operand size_of to_bits operand_ty) args)
          (λ a. ok (Ir.Terminator.call did substs a d')) h in
      let r : Ir.Terminator.call did substs args' d' ≡ t' = cc in
      sym (ap ir_successors r) ∙ destination-return_target destination d' h2
  terminator-successors (Mir.Terminator.switch_int discr targets) t' h =
      let (d', h1, h2) =
        >>=-eq-ok (lower_operand size_of to_bits operand_ty discr)
          (λ d. ok (Ir.Terminator.switch_int d targets)) h in
      let r : Ir.Terminator.switch_int d' targets ≡ t' = cc in sym (ap ir_successors r)
  terminator-successors (Mir.Terminator.goto target) t' h =
      let r : Ir.Terminator.goto target ≡ t' = cc in sym (ap ir_successors r)
  terminator-successors (Mir.Terminator.drop place target) t' h =
      let (p', h1, h2) = >>=-eq-ok (lower_place place) (λ p. ok (Ir.Terminator.drop p target)) h in
      let r : Ir.Terminator.drop p' target ≡ t' = cc in sym (ap ir_successors r)
  terminator-successors _ t' h = cc

  last-successors :
      (t : Option (Mir.Terminator Scalar)) (t' : Option Ir.Terminator)
      → lower_last size_of to_bits operand_ty t ≡ ok t'
      → Option.map ir_successors t' ≡ Option.map mir_successors t
  unfolding lower_last
  last-successors none t' h = let r : none ≡ t' = cc in sym (ap (Option.map ir_successors) r)
  last-successors (some t) t' h =
      let (u, h1, h2) =
        >>=-eq-ok (lower_terminator size_of to_bits operand_ty t) (λ u. ok (some u)) h in
      let r : some u ≡ t' = cc in
      sym (ap (Option.map ir_successors) r) ∙ ap some (terminator-successors t u h1)

  block-successors :
      (b : Mir.BasicBlockData Scalar) (b' : Ir.BasicBlockData)
      → lower_basic_block_data size_of to_bits operand_ty b ≡ ok b'
      → ir_block_successors b' ≡ mir_block_successors b
  unfolding lower_basic_block_data
  block-successors b b' h =
      let (stmts, h1, h) =
        >>=-eq-ok (try_collect (lower_statement size_of to_bits operand_ty) b.statements) _ h in
      let (t, h2, h3) =
        >>=-eq-ok (lower_last size_of to_bits operand_ty b.terminator)
          (λ t. ok (record { statements = stmts; terminator = t })) h in
      let r : record { statements = stmts; terminator = t } ≡ b' = cc in
      sym (ap ir_block_successors r) ∙ last-successors b.terminator t h2

  -- When a body is lowered, the result has the same blocks with the same successors, in the same
  -- order: the control-flow graph is kept, unwinding aside.
  pub lower-successors :
      (body : Mir.Body Scalar) (body' : Ir.Body)
      → lower size_of to_bits operand_ty body ≡ ok body'
      → map ir_block_successors body'.basic_blocks ≡ map mir_block_successors body.basic_blocks
  unfolding lower
  lower-successors body body' h =
      let (bbs, h1, h2) =
        >>=-eq-ok
          (try_collect (lower_basic_block_data size_of to_bits operand_ty) body.basic_blocks)
          (λ bbs.
            ok (record {
              basic_blocks = bbs;
              nlocals = body.local_decls;
              arg_count = body.arg_count;
            }))
          h in
      let r : record { basic_blocks = bbs; nlocals = body.local_decls; arg_count = body.arg_count }
          ≡ body' =
        cc in
      sym (ap (λ b. map ir_block_successors b.basic_blocks) r)
      ∙ try_collect-map (lower_basic_block_data size_of to_bits operand_ty) mir_block_successors
          ir_block_successors block-successors body.basic_blocks bbs h1
