-- ===== src/Quote/Examples.antt =====
-- Books and instructions on concrete updates.
use archer_market_maker.Base.{
  false, ℕ, ◌+◌, ◌≡◌, refl, ◌⊎◌, [], ◌∷◌, map, some, none, true, arith, length,
}
use archer_market_maker.Base.Int.{pos, negsuc}
use archer_market_maker.Sdk.{BookUpdate, sequence_of}
use archer_market_maker.Concrete.{encoders, decoding, sdk, config}
use archer_market_maker.Quote.{build_book_update, update_instructions}
use archer_market_maker.Quote.Sequence.{Consecutive, full_writes, update_instructions_lem}
use archer_market_maker.Quote.Rebase.{IsAbsolutable, absolute, build_book_update_lo}

-- A bid at 99, ten ticks below the mid, and an ask seven above; the mid has moved.
abbrev update : BookUpdate ℕ
update = record {
  new_mid_price_ticks = 109;
  mid_price_changed = true;
  bid_levels = record { price_offset_ticks = negsuc 9; rest = 4 } ∷ [];
  ask_levels = record { price_offset_ticks = pos 7; rest = 5 } ∷ [];
}

-- The same levels, as the sdk builds them.
abbrev built : BookUpdate ℕ
built = record update { mid_price_changed = false }

update_instructions_lem_example :
    let (ixs, last) = update_instructions encoders (config true).authority 3 update 42 in
    let writes = map decoding.decode ixs in
    (writes ≡ full_writes encoders decoding (config true).authority 3 update 42)
    × Consecutive 42 (map sequence_of writes)
    × (last + 1 ≡ 42 + length ixs)
update_instructions_lem_example =
    update_instructions_lem encoders decoding (config true).authority 3 update 42 (omega arith)

build_book_update_lo_example :
    (IsAbsolutable built
      × (build_book_update sdk ((99000, 4) ∷ [], (116000, 5) ∷ []) 109 tt true
          ≡ some (absolute built)))
    ⊎ ((¬ IsAbsolutable built)
        × (build_book_update sdk ((99000, 4) ∷ [], (116000, 5) ∷ []) 109 tt true ≡ none))
build_book_update_lo_example =
    build_book_update_lo sdk ((99000, 4) ∷ [], (116000, 5) ∷ []) 109 tt built refl
