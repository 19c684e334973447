-- ===== src/Typeck/TypeEnv/Levels.antt =====
-- `levels` of liquid-rust-typeck/src/type_env.rs, how far a location is from the last referent of its
-- strong references, and the order by level.
use liquid_rust.Base.{
  ℕ, zero, suc, ◌+◌, List, [], ◌∷◌, Option, none, some, Outcome, ok, panicked, ◌>>=◌, unwrap, find,
  insert, ◌*◌, leb, if◌then◌else◌, length,
}
use liquid_rust.Typeck.Ty.{Loc, Ty, Loc-discrete}
use liquid_rust.Typeck.TypeEnv.{TypeEnv, binding_ty, find_loc}

abbrev pub Levels : Type 0
Levels = List (Loc × ℕ)

abbrev pub level_of : Levels → Loc → Option ℕ
level_of levels loc = find Loc-discrete levels loc

-- A level that is there already is returned; another is computed and inserted.
unfoldable pub memo_level : Levels → Loc → Option ℕ → Outcome (ℕ × Levels) → Outcome (ℕ × Levels)
memo_level levels loc (some level) computed = ok (level, levels)
memo_level levels loc none computed = do
  (level, levels₁) ← computed
  ok (level, insert Loc-discrete levels₁ loc level)

-- `dfs`. A chain of references visits each location once, unless it is a cycle, on which the code
-- does not return: fuel as much as the environment has entries is enough for the other chains.
unfoldable mutual
  pub dfs : ℕ → TypeEnv → Loc → Ty → Levels → Outcome (ℕ × Levels)
  dfs zero env loc ty levels = panicked
  dfs (suc fuel) env loc ty levels =
      let computed = dfs_referee fuel env ty levels in
      memo_level levels loc (level_of levels loc) computed

  -- The level by the type of the binding
  pub dfs_referee : ℕ → TypeEnv → Ty → Levels → Outcome (ℕ × Levels)
  dfs_referee zero env (Ty.strg_ref referee) levels = panicked
  dfs_referee (suc fuel) env (Ty.strg_ref referee) levels = do
    binding ← unwrap (find_loc env referee)
    (level, levels₁) ← dfs fuel env referee (binding_ty binding) levels
    ok (level + 1, levels₁)
  dfs_referee fuel env _ levels = ok (0, levels)

-- The loop over the bindings
unfoldable pub dfs_all : ℕ → TypeEnv → TypeEnv → Levels → Outcome Levels
dfs_all fuel env [] levels = ok levels
dfs_all fuel env ((loc, binding) ∷ bindings) levels = do
  (_, levels₁) ← dfs fuel env loc (binding_ty binding) levels
  dfs_all fuel env bindings levels₁

unfoldable pub levels : TypeEnv → Outcome Levels
levels env = dfs_all (2 * suc (length env)) env env []

-- `sorted_by_key` on the level, a stable sort
unfoldable pub insert_sorted : Loc × ℕ → Levels → Levels
insert_sorted x [] = x ∷ []
insert_sorted x (y ∷ ys) =
    let rest = insert_sorted x ys in if leb x.1 y.1 then x ∷ y ∷ ys else y ∷ rest

unfoldable pub sorted_by_level : Levels → Levels
sorted_by_level [] = []
sorted_by_level (x ∷ xs) = insert_sorted x (sorted_by_level xs)
