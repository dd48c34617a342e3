-- ===== src/Dashboard/Page/Found.antt =====
-- crates/server/src/http/dashboard/index.html: the blocks of the page as the entries of a history,
-- and what an update makes of them.
use zkboost.Prelude.{
  ap, ℕ, zero, suc, ℕ_discrete, ◌≡◌, refl, sym, ◌∙◌, ◌≢◌, ◌<◌, arith, List, [], ◌∷◌, some, none,
  map, take, get, get-insert_entry, insert_entry, All, if_pos, if_neg,
}
use mathlib.Core.Option.{some-injective}
use zkboost.Payload.{Hash256}
use zkboost.External.{External}
use zkboost.Lru.{LruCache}
use zkboost.Dashboard.{HistoricalBlock}
use zkboost.Dashboard.Service.{empty_block}
use zkboost.Dashboard.Page.{Update, update_entry, find_block, update_found, update_historical_block}

module _ (x : External) where
  open x use {Seconds}

  abbrev pub Entries : Type 0
  Entries = List (Hash256 × HistoricalBlock Seconds)

  abbrev pub values : Entries → List (HistoricalBlock Seconds)
  values m = map (λ e. e.1) m

  -- Each block stands under its own hash.
  abbrev pub IsKeyed : Entries → Type 0
  IsKeyed m = All (λ e. e.1.block_hash ≡ e.0) m

  module _ (h : Hash256) (c : HistoricalBlock Seconds) (page : List (HistoricalBlock Seconds)) where
    find_block_hit : c.block_hash ≡ h → find_block x h (c ∷ page) ≡ some c
    unfolding find_block
    find_block_hit p = if_pos (ℕ_discrete c.block_hash h) p _ _

    find_block_miss : c.block_hash ≢ h → find_block x h (c ∷ page) ≡ find_block x h page
    unfolding find_block
    find_block_miss n = if_neg (ℕ_discrete c.block_hash h) n _ _

    module _ (u : Update x) where
      update_found_hit :
          c.block_hash ≡ h → update_found x h u (c ∷ page) ≡ update_entry x u c ∷ page
      unfolding update_found
      update_found_hit p = if_pos (ℕ_discrete c.block_hash h) p _ _

      update_found_miss :
          c.block_hash ≢ h → update_found x h u (c ∷ page) ≡ c ∷ update_found x h u page
      unfolding update_found
      update_found_miss n = if_neg (ℕ_discrete c.block_hash h) n _ _

  values-take : (n : ℕ) (m : Entries) → take n (values m) ≡ values (take n m)
  values-take zero m = refl
  values-take (suc n) [] = refl
  values-take (suc n) (e ∷ m) = ap (λ page. e.1 ∷ page) (values-take n m)

  pub IsKeyed-take : (n : ℕ) (m : Entries) → IsKeyed m → IsKeyed (take n m)
  IsKeyed-take zero m k = tt
  IsKeyed-take (suc n) [] k = tt
  IsKeyed-take (suc n) (e ∷ m) k = (k.0, IsKeyed-take n m k.1)

  module _ (dec : Discrete Hash256) (h : Hash256) where
    pub find_block-values : (m : Entries) → IsKeyed m → find_block x h (values m) ≡ get dec m h
    unfolding find_block
    find_block-values [] k = refl
    find_block-values ((j, c) ∷ m) k = elim (dec j h) [
      | yes p ↦ find_block_hit h c (values m) (k.0 ∙ p) ∙ sym (if_pos (dec j h) p _ _)
      | no n ↦
          find_block_miss h c (values m) (λ e. n (sym k.0 ∙ e))
          ∙ find_block-values m k.1
          ∙ sym (if_neg (dec j h) n _ _)
    ]

    pub IsKeyed-get :
        (m : Entries) (b : HistoricalBlock Seconds)
        → IsKeyed m
        → get dec m h ≡ some b
        → b.block_hash ≡ h
    IsKeyed-get [] b k e = absurd (cc)
    IsKeyed-get ((j, c) ∷ m) b k e = elim (dec j h) [
      | yes p ↦
          let same = some-injective c b (sym (if_pos (dec j h) p _ _) ∙ e) in
          ap (λ (d : HistoricalBlock Seconds). d.block_hash) (sym same) ∙ k.0 ∙ p
      | no n ↦ IsKeyed-get m b k.1 (sym (if_neg (dec j h) n _ _) ∙ e)
    ]

    pub IsKeyed-insert_entry :
        (m : Entries) (b : HistoricalBlock Seconds)
        → IsKeyed m
        → b.block_hash ≡ h
        → IsKeyed (insert_entry dec h b m)
    unfolding insert_entry
    IsKeyed-insert_entry [] b k e = (e, tt)
    IsKeyed-insert_entry ((j, c) ∷ m) b k e = elim (dec j h) [
      | yes p ↦ rw (if_pos _ p) (e, k.1)
      | no n ↦ rw (if_neg _ n) (k.0, IsKeyed-insert_entry m b k.1 e)
    ]

    pub find_block-insert_entry :
        (m : Entries) (b : HistoricalBlock Seconds)
        → IsKeyed m
        → b.block_hash ≡ h
        → find_block x h (values (insert_entry dec h b m)) ≡ some b
    find_block-insert_entry m b k e =
        find_block-values (insert_entry dec h b m) (IsKeyed-insert_entry m b k e)
        ∙ get-insert_entry dec h h b m
        ∙ if_pos (dec h h) refl _ _

    -- The first entry of a list that is cut.
    pub insert_entry-take :
        (n : ℕ) (m : Entries) (b c : HistoricalBlock Seconds)
        → 0 < n
        → insert_entry dec h b (take n ((h, c) ∷ m)) ≡ take n ((h, b) ∷ m)
    unfolding insert_entry
    insert_entry-take zero m b c room = absurd (omega arith)
    insert_entry-take (suc n) m b c room = if_pos (dec h h) refl _ _

    module _ (u : Update x) where
      update_found-values :
          (m : Entries) (b : HistoricalBlock Seconds)
          → IsKeyed m
          → get dec m h ≡ some b
          → update_found x h u (values m) ≡ values (insert_entry dec h (update_entry x u b) m)
      unfolding insert_entry
      update_found-values [] b k e = absurd (cc)
      update_found-values ((j, c) ∷ m) b k e = elim (dec j h) [
        | yes p ↦
            let same = some-injective c b (sym (if_pos (dec j h) p _ _) ∙ e) in
            rw (update_found_hit h c (values m) u (k.0 ∙ p), if_pos _ p)
              (ap (λ d. update_entry x u d ∷ values m) same)
        | no n ↦
            rw (update_found_miss h c (values m) u (λ e. n (sym k.0 ∙ e)), if_neg _ n)
              (ap (λ page. c ∷ page)
                (update_found-values m b k.1 (sym (if_neg (dec j h) n _ _) ∙ e)))
      ]

      module _ (blocks : LruCache Hash256 (HistoricalBlock Seconds)) (retention : ℕ) (m : Entries)
          (k : IsKeyed m) where
        pub update_some :
            (b : HistoricalBlock Seconds)
            → get dec m h ≡ some b
            → update_historical_block x blocks retention h u (values m)
              ≡ values (insert_entry dec h (update_entry x u b) m)
        unfolding update_historical_block
        update_some b e =
            rw (update_historical_block, find_block-values m k, e) (update_found-values m b k e)

        pub update_none :
            get dec m h ≡ none
            → update_historical_block x blocks retention h u (values m)
              ≡ values (take retention ((h, update_entry x u (empty_block x blocks 0 h 0 0)) ∷ m))
        unfolding update_historical_block
        update_none e =
            rw (update_historical_block, find_block-values m k, e)
              (values-take retention ((h, update_entry x u (empty_block x blocks 0 h 0 0)) ∷ m))
