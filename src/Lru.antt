-- ===== src/Lru.antt =====
-- The cache of the crate `lru`, which is not part of the repository: the operations that the
-- server calls, with what their documentation says of them. Each cache of the server is such a
-- record's `Cache`, and `Lru.Recent` has a record that meets it.
pub mod Recent
use zkboost.Prelude.{
  ◌∷◌, get, take, insert_entry, ℕ, ◌≡◌, ◌≢◌, ◌⊎◌, ◌≤◌, ◌<◌, List, Option, none, some, Bool, is_some,
  length,
}

pub record LruCache (K V : Type 0) : Type 1 where
  pub Cache : Type 0
  -- The keys are `Eq`.
  pub dec : Discrete K
  -- Whether the table that `LruCache::new` allocates for a capacity can be had; where it cannot,
  -- the call does not return.
  pub allocates : ℕ → Bool
  -- `LruCache::new` of a capacity that is not zero and is allocated.
  pub new : ℕ → Cache
  pub cap : Cache → ℕ
  pub contains : Cache → K → Bool
  -- A read that does not make the entry a recent one.
  pub peek : Cache → K → Option V
  -- A write through the reference of `peek_mut`: the value changes, and no entry moves.
  pub set : Cache → K → V → Cache
  -- `put` and `push` differ in what they return only.
  pub put : Cache → K → V → Cache
  pub iter : Cache → List (K × V)
  pub contains-peek : (c : Cache) (k : K) → contains c k ≡ is_some (peek c k)
  pub peek-new : (n : ℕ) (k : K) → peek (new n) k ≡ none
  pub peek-put_self : (c : Cache) (k : K) (v : V) → 0 < cap c → peek (put c k v) k ≡ some v
  -- Another entry stays or is evicted.
  pub peek-put_ne :
      (c : Cache) (k j : K) (v : V)
      → k ≢ j
      → (peek (put c k v) j ≡ peek c j) ⊎ (peek (put c k v) j ≡ none)
  pub peek-set_self :
      (c : Cache) (k : K) (v w : V) → peek c k ≡ some w → peek (set c k v) k ≡ some v
  pub peek-set_ne : (c : Cache) (k j : K) (v : V) → k ≢ j → peek (set c k v) j ≡ peek c j
  pub cap-new : (n : ℕ) → cap (new n) ≡ n
  pub cap-put : (c : Cache) (k : K) (v : V) → cap (put c k v) ≡ cap c
  pub cap-set : (c : Cache) (k : K) (v : V) → cap (set c k v) ≡ cap c
  -- The entries are iterated with the most recent one first. A new one stands before the others
  -- and evicts the last if there is no room, and a write through `peek_mut` leaves it in its place.
  pub peek-iter : (c : Cache) (k : K) → peek c k ≡ get dec (iter c) k
  pub iter-put :
      (c : Cache) (k : K) (v : V)
      → peek c k ≡ none
      → iter (put c k v) ≡ take (cap c) ((k, v) ∷ iter c)
  pub iter-set :
      (c : Cache) (k : K) (v w : V)
      → peek c k ≡ some w
      → iter (set c k v) ≡ insert_entry dec k v (iter c)
