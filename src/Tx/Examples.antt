-- ===== src/Tx/Examples.antt =====
-- Sends on a concrete node: a transaction is its fee, its limit and its blockhash.
use archer_market_maker.Base.{ℕ, ◌≡◌, List, [], ◌∷◌, Option, none, some, ◌⊎◌}
use archer_market_maker.Tx.{TxState, Fetch, get_or_refresh_blockhash, fresh_hash}
use archer_market_maker.Tx.Blockhash.{HoldsFresh, blockhash_origin}

-- The hash at hand is three seconds old, so the node is asked.
abbrev fetch : Fetch ℕ
fetch = record {
  at_read = 4000000;
  cache_at_write = some (record { hash = 7; fetched_at = 1000000 });
  at_write = 4000100;
  latest_blockhash = some 8;
  at_answer = 4000900;
}

abbrev world : TxState ℕ ℕ
world = record {
  blockhash_cache = some (record { hash = 7; fetched_at = 1000000 });
  consecutive_failures = 3;
  submitted = 9 ∷ [];
}

abbrev results : List (Option ℕ)
results = some 5 ∷ none ∷ none ∷ []

blockhash_origin_example :
    ((hash : ℕ) × ((get_or_refresh_blockhash fetch world.blockhash_cache).0 ≡ some hash)
      × ((HoldsFresh world.blockhash_cache 4000000 hash
            × ((get_or_refresh_blockhash fetch world.blockhash_cache).1 ≡ world.blockhash_cache))
          ⊎ (HoldsFresh fetch.cache_at_write 4000100 hash
              × ((get_or_refresh_blockhash fetch world.blockhash_cache).1 ≡ fetch.cache_at_write))
          ⊎ ((fresh_hash world.blockhash_cache 4000000 ≡ none)
              × (fresh_hash fetch.cache_at_write 4000100 ≡ none)
              × (fetch.latest_blockhash ≡ some hash)
              × ((get_or_refresh_blockhash fetch world.blockhash_cache).1
                  ≡ some (record { hash = hash; fetched_at = 4000900 })))))
    ⊎ (((get_or_refresh_blockhash fetch world.blockhash_cache).0 ≡ none)
        × (fetch.latest_blockhash ≡ none)
        × ((get_or_refresh_blockhash fetch world.blockhash_cache).1 ≡ fetch.cache_at_write))
blockhash_origin_example = blockhash_origin fetch world.blockhash_cache
