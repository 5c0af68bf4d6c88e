-- ===== src/Strategy/Hash.antt =====
-- What `structure_hash` tells apart.
use archer_market_maker.Base.{
  ℕ, ◌^◌, ◌<◌, ◌≡◌, ◌≢◌, ◌⊎◌, inl, inr, sym, ap, ◌∙◌, List, foldl, arith, add_u64,
}
use archer_market_maker.Float.{F64}
use archer_market_maker.Strategy.{mix, structure_hash}

mix-lt : (h s : ℕ) → mix h s < 2 ^ 64
mix-lt h s = omega arith

-- The last number mixed in can be told from the result.
mix-injective_right : (h s t : ℕ) → s < 2 ^ 64 → t < 2 ^ 64 → mix h s ≡ mix h t → s ≡ t
mix-injective_right h s t hs ht e = omega arith

-- The multiplier is odd, so what was mixed before can be told too.
mix-injective_left : (h k s : ℕ) → h < 2 ^ 64 → k < 2 ^ 64 → mix h s ≡ mix k s → h ≡ k
mix-injective_left h k s hh hk e = omega arith

mix_ne : (h s t : ℕ) → s < 2 ^ 64 → t < 2 ^ 64 → s ≢ t → mix h s ≢ mix h t
mix_ne h s t hs ht ne e = ne (mix-injective_right h s t hs ht e)

module _ {F : Type 0} ⦃fl : F64 F⦄ where
  open fl use {of_u64, mul, round, to_u64}

  -- The spread as it is hashed, in tenths of a basis point.
  abbrev pub spread_tenths : F → ℕ
  spread_tenths spread = to_u64 (round (mul spread (of_u64 10)))

  -- With the same number of levels and the same sizes, the hash of a book tells apart any two
  -- tightest spreads that differ in tenths of a basis point, at one anchor, and any two anchors, at
  -- one spread. The numbers hashed are taken to be `u64` values.
  pub structure_hash_ne :
      (n : ℕ) (bids asks : List ℕ) (spread spread' : F) (anchor anchor' : ℕ)
      → spread_tenths spread < 2 ^ 64
      → spread_tenths spread' < 2 ^ 64
      → anchor < 2 ^ 64
      → anchor' < 2 ^ 64
      → ((spread_tenths spread ≢ spread_tenths spread') × (anchor ≡ anchor'))
        ⊎ ((spread ≡ spread') × (anchor ≢ anchor'))
      → structure_hash n bids asks spread anchor ≢ structure_hash n bids asks spread' anchor'
  unfolding structure_hash
  structure_hash_ne n bids asks spread spread' anchor anchor' hs hs' ha ha' (inl (ne, same)) e =
      ne (
        mix-injective_right _ _ _ hs hs'
          (mix-injective_left _ _ anchor (mix-lt _ _) (mix-lt _ _) (e ∙ ap (mix _) (sym same))))
  structure_hash_ne n bids asks spread spread' anchor anchor' hs hs' ha ha' (inr (same, ne)) e =
      ne (
        mix-injective_right _ anchor anchor' ha ha' (
          e
          ∙ ap
              (λ s.
                mix
                  (mix (foldl (λ h k. mix h (add_u64 k 1)) (foldl mix n bids) asks)
                    (spread_tenths s))
                  anchor')
              (sym same)))
