-- ===== src/Strategy/Requote.antt =====
-- When `Strategy::compute` writes the book anew.
use archer_market_maker.Base.{
  ℕ, ◌<◌, ◌^◌, ◌≡◌, refl, ◌≢◌, inl, inr, sym, ◌∙◌, ap, some, true, arith, length,
}
use mathlib.Core.Path.{subst}
use archer_market_maker.Float.{F64}
use archer_market_maker.Sdk.{QuoteMath}
use archer_market_maker.Strategy.Decisions.{Requotes, decide_cases, rebuild-Requotes, unchanged}
use archer_market_maker.Strategy.Hash.{structure_hash_ne, spread_tenths}
use archer_market_maker.Strategy.{Strategy, structure_hash, ladder, price_anchor, hash_of, decide}

module _ {F Market Quotes S : Type 0} ⦃fl : F64 F⦄ (sdk : QuoteMath F Market Quotes S) where
  unchanged-hash :
      (s : Strategy F) (mid : F) (cached last : ℕ) (m : Market) (base quote : ℕ) (vol tightest : F)
      → unchanged sdk s mid cached last m base quote vol tightest ≡ true
      → hash_of sdk s m mid (ladder sdk s m mid base quote vol) tightest ≡ last
  unchanged-hash s mid cached last m base quote vol tightest e = ground arith

  changed-Requotes :
      (s : Strategy F) (mid : F) (cached last : ℕ) (m : Market) (base quote : ℕ) (vol tightest : F)
      → hash_of sdk s m mid (ladder sdk s m mid base quote vol) tightest ≢ last
      → Requotes (decide sdk s mid cached last m base quote vol tightest)
  changed-Requotes s mid cached last m base quote vol tightest ne =
      elim (decide_cases sdk s mid cached last m base quote vol tightest) [
        | inl clears ↦ subst Requotes (sym clears) tt
        | inr (inl (u, keeps)) ↦
            absurd (ne (unchanged-hash s mid cached last m base quote vol tightest u))
        | inr (inr (u, (h, l, builds))) ↦
            subst Requotes (sym builds) (rebuild-Requotes sdk s m mid cached l h)
      ]

  anchor_of_lo :
      (s : Strategy F) (m : Market) (mid : F) (t : ℕ)
      → s.is_lo ≡ true
      → sdk.price_to_ticks mid m ≡ some t
      → price_anchor sdk s m mid ≡ t
  unfolding price_anchor
  anchor_of_lo s m mid t lo ticks = rw (lo, ticks)

  -- On a limit-order book, if the mid price is at another tick than when the structure on record
  -- was hashed, with the sizes and the spread of now, then the decision is to write the book anew
  -- or to clear it, whatever the feed and the inventory are.
  pub lo_tick_move :
      (s : Strategy F) (mid : F) (cached : ℕ) (m : Market) (base quote : ℕ) (vol tightest : F)
      (t t' : ℕ)
      → s.is_lo ≡ true
      → sdk.price_to_ticks mid m ≡ some t
      → t < 2 ^ 64
      → t' < 2 ^ 64
      → t ≢ t'
      → spread_tenths tightest < 2 ^ 64
      → let l = ladder sdk s m mid base quote vol in
        let last =
          structure_hash
            (length s.config.spread_levels_bps)
            l.bid_sizes_q
            l.ask_sizes_q
            tightest
            t' in
        Requotes (decide sdk s mid cached last m base quote vol tightest)
  unfolding hash_of
  lo_tick_move s mid cached m base quote vol tightest t t' lo ticks ht ht' ne small =
      let l = ladder sdk s m mid base quote vol in
      changed-Requotes s mid cached _ m base quote vol tightest λ e.
        structure_hash_ne (length s.config.spread_levels_bps) l.bid_sizes_q l.ask_sizes_q tightest
          tightest t t' small small ht ht' (inr (refl, ne))
          (ap
              (structure_hash (length s.config.spread_levels_bps) l.bid_sizes_q l.ask_sizes_q
                tightest)
              (sym (anchor_of_lo s m mid t lo ticks))
            ∙ e)
