-- ===== src/Tx/Blockhash.antt =====
-- Which blockhash a transaction is signed with.
use archer_market_maker.Base.{
  ℕ, ◌-◌, ◌<◌, ◌≡◌, refl, ◌⊎◌, inl, inr, Option, none, some, arith, Option-cases,
}
use archer_market_maker.Tx.{
  CachedBlockhash, Fetch, blockhash_ttl, fresh_hash, refresh, get_or_refresh_blockhash,
}

module _ {Hash : Type 0} where
  -- The cache holds `hash`, fetched less than two seconds before `now`.
  abbrev pub HoldsFresh : Option (CachedBlockhash Hash) → ℕ → Hash → Type 0
  HoldsFresh cache now hash =
      (cached : CachedBlockhash Hash) × (cache ≡ some cached)
      × (cached.hash ≡ hash)
      × (now - cached.fetched_at < blockhash_ttl)

  fresh_hash-HoldsFresh :
      (cache : Option (CachedBlockhash Hash)) (now : ℕ) (hash : Hash)
      → fresh_hash cache now ≡ some hash
      → HoldsFresh cache now hash
  unfolding fresh_hash
  fresh_hash-HoldsFresh none now hash e = absurd (cc)
  fresh_hash-HoldsFresh (some cached) now hash e = (cached, refl, ground arith, ground arith)

  -- A call that yields a hash found it less than two seconds old in the cache, when it first looked
  -- or when it held the write lock, and leaves that cache as it is; or else it found neither, the
  -- hash is the node's answer, and the cache holds it from that moment on. A call that fails leaves
  -- the cache as it was under the lock.
  pub blockhash_origin :
      (f : Fetch Hash) (cache : Option (CachedBlockhash Hash))
      → let (found, cache') = get_or_refresh_blockhash f cache in
        ((hash : Hash) × (found ≡ some hash)
          × ((HoldsFresh cache f.at_read hash × (cache' ≡ cache))
              ⊎ (HoldsFresh f.cache_at_write f.at_write hash × (cache' ≡ f.cache_at_write))
              ⊎ ((fresh_hash cache f.at_read ≡ none)
                  × (fresh_hash f.cache_at_write f.at_write ≡ none)
                  × (f.latest_blockhash ≡ some hash)
                  × (cache' ≡ some (record { hash = hash; fetched_at = f.at_answer })))))
        ⊎ ((found ≡ none) × (f.latest_blockhash ≡ none) × (cache' ≡ f.cache_at_write))
  unfolding get_or_refresh_blockhash refresh
  blockhash_origin f cache = elim (Option-cases (fresh_hash cache f.at_read)) [
    | inr (hash, e) ↦ inl (
      hash,
      rw (e, get_or_refresh_blockhash),
      inl (fresh_hash-HoldsFresh cache f.at_read hash e, rw (e, get_or_refresh_blockhash)),
    )
    | inl stale ↦ elim (Option-cases (fresh_hash f.cache_at_write f.at_write)) [
      | inr (hash, e) ↦ inl (
        hash,
        rw (stale, e, get_or_refresh_blockhash),
        inr (
            inl (
              fresh_hash-HoldsFresh f.cache_at_write f.at_write hash e,
              rw (stale, e, get_or_refresh_blockhash),
            )),
      )
      | inl stale' ↦ elim (Option-cases f.latest_blockhash) [
        | inr (hash, e) ↦ inl (
          hash,
          rw (stale, stale', e, refresh, get_or_refresh_blockhash),
          inr (inr (stale, stale', e, rw (stale, stale', e, refresh, get_or_refresh_blockhash))),
        )
        | inl e ↦ inr (
          rw (stale, stale', e, refresh, get_or_refresh_blockhash),
          e,
          rw (stale, stale', e, refresh, get_or_refresh_blockhash),
        )
      ]
    ]
  ]
