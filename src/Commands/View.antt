-- ===== src/Commands/View.antt =====
-- src/main.rs: `markets view`. What is printed is a record of what is computed for it; the lines that
-- only repeat the market's configuration are left out.
pub mod Best
use archer_market_maker.Base.{
  ℕ, List, [], ◌∷◌, foldl, Option, none, some, Bool, length, is_empty, if◌then◌else◌,
}
use archer_market_maker.Base.Keys.{Eq}
use archer_market_maker.Base.Text.{Text}
use archer_market_maker.Base.Results.{Result, ok, err, ◌>>=◌, context, map_err}
use archer_market_maker.Float.{F64}
use archer_market_maker.Client.{Mints, get_token_symbols}
use archer_market_maker.Client.Accounts.{Program, get_maker_books_for_market}
use archer_market_maker.Config.Loading.{load_markets_context}
use archer_market_maker.Commands.Chain.{
  World, MakerBook, MarketStateHeader, Failure, config_error, pubkey_error, market_error,
  slot_error, books_error, no_market_given,
}
use archer_market_maker.Commands.Markets.{Display, market_status_str, symbol_or_unknown}
use archer_market_maker.Commands.{Outcome}

-- The line on the top of the book.
pub data TopOfBook (F : Type 0) : Type 0 where
  both : (bid ask spread_bps : F) → TopOfBook F
  no_asks : (bid : F) → TopOfBook F
  no_bids : (ask : F) → TopOfBook F
  no_live_quotes : TopOfBook F

-- Of two optional values, what a function makes of both, or the one that is there.
abbrev pub merge : {A : Type 0} → (A → A → A) → Option A → Option A → Option A
merge f best none = best
merge f none (some a) = some a
merge f (some b) (some a) = some (f b a)

module _ {F : Type 0} ⦃fl : F64 F⦄ (factor : F) where
  open fl use {of_u64, mul, fmax, fmin}

  -- A price in ticks as a price in quote units.
  abbrev pub priced : Option ℕ → Option F
  priced none = none
  priced (some ticks) = some (mul (of_u64 ticks) factor)

  -- The body of the loop over the books.
  pub merge_book : {Pubkey : Type 0} → Option F × Option F → MakerBook Pubkey → Option F × Option F
  merge_book (best_bid, best_ask) book = (
    merge fmax best_bid (priced book.best_bid_price),
    merge fmin best_ask (priced book.best_ask_price),
  )

  pub best_prices : {Pubkey : Type 0} → List (MakerBook Pubkey) → Option F × Option F
  unfolding merge_book
  best_prices books = foldl merge_book (none, none) books

module _ {F : Type 0} ⦃fl : F64 F⦄ where
  open fl use {of_u64, sub, mul, div, lt}

  pub spread_bps : (bid ask : F) → F
  spread_bps bid ask =
      if lt (of_u64 0) ask then mul (div (sub ask bid) ask) (of_u64 10000) else of_u64 0

  pub top_of_book : Option F × Option F → TopOfBook F
  unfolding spread_bps
  top_of_book (some bid, some ask) = both bid ask (spread_bps bid ask)
  top_of_book (some bid, none) = no_asks bid
  top_of_book (none, some ask) = no_bids ask
  top_of_book (none, none) = no_live_quotes

-- `books.iter().filter(..)`
pub eligible_books :
    {Pubkey : Type 0}
    → (slot last_restart_slot maker_fee_ppm : ℕ) → List (MakerBook Pubkey)
    → List (MakerBook Pubkey)
eligible_books slot restart fee [] = []
eligible_books slot restart fee (book ∷ books) =
    let rest = eligible_books slot restart fee books in
    if book.is_auction_eligible slot restart fee then book ∷ rest else rest

pub record View (Pubkey F : Type 0) : Type 0 where
  pub market : Pubkey
  pub status : Text
  pub base_symbol : Text
  pub quote_symbol : Text
  pub books : ℕ
  pub fillable : ℕ
  pub top : TopOfBook F

-- `market.or(ctx.default_market)`
abbrev pub or_default : Option Text → Option Text → Option Text
or_default none d = d
or_default (some m) d = some m

module _ {Pubkey Keypair Instruction Hash Transaction Error Signature F S : Type 0} ⦃fl : F64 F⦄
    ⦃keys : Eq Pubkey⦄ (display : Display Pubkey F)
    (world : World Pubkey Keypair Instruction Hash Transaction Error Signature F S)
    (program_at : Text → Program Pubkey (MarketStateHeader Pubkey) (MakerBook Pubkey))
    (tokens_at : Text → Mints Pubkey) where
  open world use {files, parse_pubkey, connect}

  unfoldable pub cmd_markets_view : Text → Option Text → Outcome world (View Pubkey F)
  unfolding best_prices top_of_book eligible_books
  cmd_markets_view config_path given = do
    ctx ← map_err config_error (load_markets_context files config_path)
    market_str ← context no_market_given (or_default given ctx.default_market)
    market ← context pubkey_error (parse_pubkey market_str)
    let client = connect ctx.rpc_url
    cfg ← context market_error (client.get_market_config market)
    header ← context market_error (client.get_market_header market)
    slot ← context slot_error client.get_slot
    restart ← context slot_error client.get_last_restart_slot
    let symbols = get_token_symbols (tokens_at ctx.rpc_url) (cfg.base_mint ∷ cfg.quote_mint ∷ [])
    books ← context books_error (get_maker_books_for_market (program_at ctx.rpc_url) market)
    let eligible = eligible_books slot restart cfg.maker_fee_ppm books
    ok (record {
      market = market;
      status = market_status_str display header.status;
      base_symbol = symbol_or_unknown display symbols cfg.base_mint;
      quote_symbol = symbol_or_unknown display symbols cfg.quote_mint;
      books = length books;
      fillable = length eligible;
      top = top_of_book (best_prices cfg.ticks_to_price_factor eligible);
    })
