-- ===== src/Driver/ScopeMap.antt =====
-- The interface of `quickscope::ScopeMap`, a map of layers that is not part of the repository: its
-- operations, and what its documentation says of them.
use liquid_rust.Base.{ℕ, Bool, true, false, Option, none, some, ◌≡◌, ◌≢◌}

pub record ScopeMap (K V M : Type 0) : Type 0 where
  pub new : M
  pub define : M → K → V → M
  pub get : M → K → Option V
  pub contains_key_at_top : M → K → Bool
  pub push_layer : M → M
  pub pop_layer : M → M
  pub len : M → ℕ

-- A key has the value that the topmost layer with this key gives it.
pub record IsScopeMap {K V M : Type 0} (o : ScopeMap K V M) : Type 0 where
  pub get_new : (k : K) → o.get o.new k ≡ none
  pub get_define : (m : M) (k : K) (v : V) → o.get (o.define m k v) k ≡ some v
  pub get_define_other : (m : M) (k j : K) (v : V) → k ≢ j → o.get (o.define m k v) j ≡ o.get m j
  pub get_push : (m : M) (k : K) → o.get (o.push_layer m) k ≡ o.get m k
  pub get_pop :
      (m : M) (k j : K) (v : V) → o.get (o.pop_layer (o.define (o.push_layer m) k v)) j ≡ o.get m j
  pub at_top_new : (k : K) → o.contains_key_at_top o.new k ≡ false
  pub at_top_push : (m : M) (k : K) → o.contains_key_at_top (o.push_layer m) k ≡ false
  pub at_top_define : (m : M) (k : K) (v : V) → o.contains_key_at_top (o.define m k v) k ≡ true
  pub at_top_define_other :
      (m : M) (k j : K) (v : V)
      → k ≢ j
      → o.contains_key_at_top (o.define m k v) j ≡ o.contains_key_at_top m j
  pub get_at_top :
      (m : M) (k : K) → o.contains_key_at_top m k ≡ true → (v : V) × (o.get m k ≡ some v)
