-- ===== src/Common/IndexGen.antt =====
-- `IndexGen` of liquid-rust-common/src/index.rs: fresh indices from an atomic counter.
pub mod Unique
use liquid_rust.Base.{ℕ, ◌+◌, ◌%◌, ◌^◌, List, [], ◌∷◌, Option, none, some, leb, if◌then◌else◌}

-- A `usize` counter.
abbrev pub word : ℕ
word = 2 ^ 64

-- `IndexGen::new`
abbrev pub start : ℕ
start = 0

-- `I::new` of a type made by `newtype_index!` panics (`none`) above the type's largest index.
module _ (max_index : ℕ) where
  abbrev pub new_index : ℕ → Option ℕ
  new_index index = if leb index max_index then some index else none

  -- `fresh`: `fetch_add(1)`, then `I::new` of the old value
  unfoldable pub fresh : ℕ → Option ℕ × ℕ
  fresh count = (new_index count, (count + 1) % word)

  -- `skip`: `fetch_add(n)`
  unfoldable pub skip : ℕ → ℕ → ℕ
  skip n count = (count + n) % word

-- The calls of all threads, in the order in which their `fetch_add` took effect.
pub data Op : Type 0 where
  fresh_call : Op
  skip_call : ℕ → Op

module _ (max_index : ℕ) where
  -- The indices that a sequence of calls hands out, without those that panic.
  unfoldable pub run : List Op → ℕ → List ℕ
  run [] count = []
  run (fresh_call ∷ ops) count =
      let (index, count') = fresh max_index count in
      let rest = run ops count' in elim index [ some i ↦ i ∷ rest | none ↦ rest ]
  run (skip_call n ∷ ops) count = run ops (skip max_index n count)
