-- ===== src/Commands/Markets/Listing.antt =====
-- Which markets `markets list` shows, in which order, and under which symbols.
use mathlib.Core.List.{Perm}
use mathlib.Core.List.Perm
use archer_market_maker.Base.{◌≡◌, List, ◌++◌, Bool, true, false, All}
use archer_market_maker.Commands.Markets.{Market}

module _ {Pubkey : Type 0} where
  -- What `retain` splits the markets into.
  unfoldable pub IsRetained : (all : Bool) → List (Market Pubkey) → List (Market Pubkey) → Type 0
  IsRetained true kept found = kept ≡ found
  IsRetained false kept found =
      (dropped : List (Market Pubkey)) × Perm (kept ++ dropped) found
      × All (λ m. m.1.is_active ≡ true) kept
      × All (λ m. m.1.is_active ≡ false) dropped
