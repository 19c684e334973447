-- ===== src/Common/Format.antt =====
-- `PadAdapter` of liquid-rust-common/src/format.rs: a writer that indents every line by three spaces.
-- The inner writer, any implementation of `fmt::Write`, is a function on its state that may fail.
pub mod Indent
use liquid_rust.Base.{
  ℕ, zero, suc, Text, codes, List, [], ◌∷◌, ◌++◌, Option, none, some, Bool, true, false, ◌==◌,
  if◌then◌else◌, length,
}
use mathlib.Core.Option

-- '\n'
abbrev pub newline : ℕ
newline = 10

abbrev pub padding : Text
padding = codes "   "

-- `s.find('\n')`
unfoldable pub find_newline : Text → Option ℕ
find_newline [] = none
find_newline (c ∷ s) = if c == newline then some 0 else Option.map suc (find_newline s)

-- `&s[..split]`
abbrev pub before : ℕ → Text → Text
before zero s = []
before (suc n) [] = []
before (suc n) (c ∷ s) = c ∷ before n s

-- `&s[split..]`
abbrev pub after : ℕ → Text → Text
after zero s = s
after (suc n) [] = []
after (suc n) (c ∷ s) = after n s

-- The position behind the next line, and whether a newline ended it.
unfoldable pub split_line : Text → ℕ × Bool
unfolding find_newline
split_line s = elim (find_newline s) [ some pos ↦ (suc pos, true) | none ↦ (length s, false) ]

-- `fmt::Result`
pub data Result : Type 0 where
  ok err : Result

-- `inner` is `write_str` of the inner writer, whose state is `W`.
module _ {W : Type 0} (inner : Text → W → Result × W) where
  -- What a call returns, with the inner writer and the state `on_newline` that it leaves.
  abbrev pub Written : Type 0
  Written = Result × (W × Bool)

  -- The operator `?`, in the state `on_newline`
  abbrev pub propagate : Bool → Result × W → (W → Option Written) → Option Written
  propagate on_newline (ok, w) k = k w
  propagate on_newline (err, w) k = some (err, (w, on_newline))

  -- `if self.state.on_newline { self.inner.write_str("   ") }`
  abbrev pub write_padding : Bool → W → Result × W
  write_padding true w = inner padding w
  write_padding false w = (ok, w)

  -- The loop of `write_str`, a round for each unit of fuel; `none` when the fuel runs out. The state is
  -- set before the line is written.
  unfoldable pub write_loop : ℕ → Bool → Text → W → Option Written
  write_loop fuel on_newline [] w = some (ok, (w, on_newline))
  write_loop zero on_newline (c ∷ s) w = none
  write_loop (suc fuel) on_newline (c ∷ s) w =
      let (split, ended) = split_line (c ∷ s) in
      propagate on_newline (write_padding on_newline w) λ w₁.
        propagate ended (inner (before split (c ∷ s)) w₁)
          λ w₂. write_loop fuel ended (after split (c ∷ s)) w₂

  -- `PadAdapter::write_str`: a round consumes a character at least.
  unfoldable pub write_str : Bool → Text → W → Option Written
  unfolding write_loop
  write_str on_newline s w = write_loop (length s) on_newline s w

-- `fmt::Write` of a `String`, which appends and does not fail
abbrev pub push_str : Text → Text → Result × Text
push_str s out = (ok, out ++ s)
