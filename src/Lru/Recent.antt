-- ===== src/Lru/Recent.antt =====
-- A cache that meets `LruCache`: a list of entries, the most recent first, cut to its capacity.
use zkboost.Prelude.{
  true, ℕ, zero, suc, ◌≡◌, refl, ◌≢◌, ◌⊎◌, inl, inr, ◌-◌, ◌<◌, arith, List, [], ◌∷◌, none, some,
  is_some, take, ite, if_pos, get, insert_entry,
}
use zkboost.Lru.{LruCache}

pub record Recent (K V : Type 0) : Type 0 where
  pub capacity : ℕ
  pub entries : List (K × V)

module _ {K V : Type 0} (dec : Discrete K) where
  drop_key : K → List (K × V) → List (K × V)
  drop_key k [] = []
  drop_key k ((j, v) ∷ m) = ite (dec j k) (drop_key k m) ((j, v) ∷ drop_key k m)

  unfoldable pub set_value : K → V → List (K × V) → List (K × V)
  set_value k v [] = []
  set_value k v ((j, w) ∷ m) = ite (dec j k) ((k, v) ∷ m) ((j, w) ∷ set_value k v m)

  get-drop_key : (k j : K) (m : List (K × V)) → k ≢ j → get dec (drop_key k m) j ≡ get dec m j
  unfolding drop_key
  get-drop_key k j [] h = refl
  get-drop_key k j ((i, w) ∷ m) h = ground (arith, get-drop_key k j m)

  pub get-set_value_self :
      (k : K) (v w : V) (m : List (K × V))
      → get dec m k ≡ some w
      → get dec (set_value k v m) k ≡ some v
  unfolding set_value
  get-set_value_self k v w [] h = cc
  get-set_value_self k v w ((i, u) ∷ m) h = ground (arith, get-set_value_self k v w m)

  pub get-set_value_ne :
      (k j : K) (v : V) (m : List (K × V)) → k ≢ j → get dec (set_value k v m) j ≡ get dec m j
  unfolding set_value
  get-set_value_ne k j v [] h = refl
  get-set_value_ne k j v ((i, u) ∷ m) h = ground (arith, get-set_value_ne k j v m)

  drop_key-none : (k : K) (m : List (K × V)) → get dec m k ≡ none → drop_key k m ≡ m
  unfolding drop_key
  drop_key-none k [] h = refl
  drop_key-none k ((j, w) ∷ m) h = ground (arith, drop_key-none k m)

  pub set_value-insert_entry :
      (k : K) (v w : V) (m : List (K × V))
      → get dec m k ≡ some w
      → set_value k v m ≡ insert_entry dec k v m
  unfolding set_value insert_entry
  set_value-insert_entry k v w [] h = absurd (cc)
  set_value-insert_entry k v w ((j, u) ∷ m) h = ground (arith, set_value-insert_entry k v w m)

  -- A shorter list finds the same value or none.
  get-take :
      (n : ℕ) (j : K) (m : List (K × V))
      → (get dec (take n m) j ≡ get dec m j) ⊎ (get dec (take n m) j ≡ none)
  get-take zero j m = inr refl
  get-take (suc n) j [] = inl refl
  get-take (suc n) j ((i, w) ∷ m) = ground (arith, get-take n j m)

  unfoldable pub recent_put : Recent K V → K → V → Recent K V
  unfolding drop_key
  recent_put c k v = record c { entries = take c.capacity ((k, v) ∷ drop_key k c.entries) }

  pub peek-put_self :
      (cache : Recent K V) (key : K) (value : V)
      → 0 < cache.capacity
      → get dec (recent_put cache key value).entries key ≡ some value
  unfolding recent_put
  peek-put_self cache key value room =
      let one_more : cache.capacity ≡ suc (cache.capacity - 1) = omega arith in
      rw one_more (if_pos (dec key key) refl _ _)

  pub peek-put_ne :
      (c : Recent K V) (k j : K) (v : V)
      → k ≢ j
      → (get dec (recent_put c k v).entries j ≡ get dec c.entries j)
        ⊎ (get dec (recent_put c k v).entries j ≡ none)
  unfolding recent_put
  peek-put_ne c k j v h =
      ground
        (arith, get-take c.capacity j ((k, v) ∷ drop_key k c.entries), get-drop_key k j c.entries)

  pub cap-put : (c : Recent K V) (k : K) (v : V) → (recent_put c k v).capacity ≡ c.capacity
  unfolding recent_put
  cap-put c k v = refl

  pub iter-put :
      (c : Recent K V) (k : K) (v : V)
      → get dec c.entries k ≡ none
      → (recent_put c k v).entries ≡ take c.capacity ((k, v) ∷ c.entries)
  unfolding recent_put
  iter-put c k v h = rw (drop_key-none k c.entries h) refl

  abbrev pub recent_cache : LruCache K V
  recent_cache = record {
    Cache = Recent K V;
    dec = dec;
    allocates = λ n. true;
    new = λ n. record { capacity = n; entries = [] };
    cap = λ c. c.capacity;
    contains = λ c k. is_some (get dec c.entries k);
    peek = λ c k. get dec c.entries k;
    set = λ c k v. record c { entries = set_value k v c.entries };
    put = recent_put;
    iter = λ c. c.entries;
    contains-peek = λ c k. refl;
    peek-new = λ n k. refl;
    peek-put_self = peek-put_self;
    peek-put_ne = peek-put_ne;
    peek-set_self = λ c k v w h. get-set_value_self k v w c.entries h;
    peek-set_ne = λ c k j v h. get-set_value_ne k j v c.entries h;
    cap-new = λ n. refl;
    cap-put = cap-put;
    cap-set = λ c k v. refl;
    peek-iter = λ c k. refl;
    iter-put = iter-put;
    iter-set = λ c k v w h. set_value-insert_entry k v w c.entries h;
  }
