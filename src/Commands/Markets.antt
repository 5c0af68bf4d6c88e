-- ===== src/Commands/Markets.antt =====
-- src/main.rs: `markets list`. How keys and floats are shown is a parameter.
pub mod Listing
pub mod Printing
mod Examples
use archer_market_maker.Base.{
  ℕ, ◌+◌, List, [], ◌∷◌, ◌++◌, map, Option, none, some, Bool, ◌&&◌, ◌||◌, ltb, ◌==◌, is_empty,
  length, if◌then◌else◌,
}
use archer_market_maker.Base.Keys.{Eq, lookup}
use archer_market_maker.Base.Text.{Text, codes, text_le, to_decimal}
use archer_market_maker.Base.Sorting.{sort_by, dedup}
use archer_market_maker.Base.Results.{Result, ok, ◌>>=◌, context, map_err}
use archer_market_maker.Float.{F64}
use archer_market_maker.Client.{Mints, get_token_symbols}
use archer_market_maker.Client.Accounts.{Program, get_all_markets}
use archer_market_maker.Config.Loading.{Files, load_markets_context}
use archer_market_maker.Commands.Chain.{
  MakerBook, MarketStateHeader, Failure, config_error, market_error,
}
use archer_market_maker.Commands.Table.{Align, left_aligned, right_aligned, print_table}

pub data MarketStatus : Type 0 where
  active paused closed frozen : MarketStatus

-- How keys and floats are shown (`{:.2}`), how keys are ordered, and `MarketStatus::from_u8`.
pub record Display (Pubkey F : Type 0) : Type 0 where
  pub to_string : Pubkey → Text
  pub two_decimals : F → Text
  pub le_pubkey : Pubkey → Pubkey → Bool
  pub from_u8 : ℕ → Option MarketStatus

-- What `markets list` prints; `listed` has how many markets, and the table, `none` if that panics.
pub data Listed : Type 0 where
  no_markets : Listed
  no_active_markets : Listed
  listed : ℕ → Option (List Text) → Listed

abbrev pub headers : List Text
headers =
    codes "#"
    ∷ codes "Status"
    ∷ codes "Base"
    ∷ codes "Quote"
    ∷ codes "MkrBps"
    ∷ codes "TkrBps"
    ∷ codes "Market"
    ∷ codes "Base Token"
    ∷ codes "Quote Token"
    ∷ []

abbrev pub aligns : List Align
aligns =
    right_aligned ∷ left_aligned ∷ left_aligned ∷ left_aligned ∷ right_aligned ∷ right_aligned
    ∷ left_aligned ∷ left_aligned ∷ left_aligned ∷ []

abbrev pub Market : Type 0 → Type 0
Market Pubkey = Pubkey × MarketStateHeader Pubkey

module _ {Pubkey : Type 0} where
  -- `markets.retain(|(_, h)| h.is_active())`
  pub retain_active : List (Market Pubkey) → List (Market Pubkey)
  retain_active [] = []
  retain_active (m ∷ ms) = let rest = retain_active ms in if m.1.is_active then m ∷ rest else rest

  abbrev pub kept_markets : (all : Bool) → List (Market Pubkey) → List (Market Pubkey)
  kept_markets all found = if all then found else retain_active found

  abbrev pub mints_of : List (Market Pubkey) → List Pubkey
  mints_of [] = []
  mints_of (m ∷ ms) = m.1.base_mint ∷ m.1.quote_mint ∷ mints_of ms

module _ {Pubkey F : Type 0} ⦃keys : Eq Pubkey⦄ (display : Display Pubkey F) where
  open display use {to_string, le_pubkey}

  -- The order of the list: by status, then by the key as it is shown.
  abbrev pub market_le : Market Pubkey → Market Pubkey → Bool
  market_le (a_pk, a) (b_pk, b) =
      ltb a.status b.status || ((a.status == b.status) && text_le (to_string a_pk) (to_string b_pk))

  abbrev pub sorted_markets : List (Market Pubkey) → List (Market Pubkey)
  sorted_markets = sort_by market_le

  abbrev pub sorted_mints : List (Market Pubkey) → List Pubkey
  sorted_mints markets = dedup (sort_by le_pubkey (mints_of markets))

  abbrev pub symbol_or_unknown : List (Pubkey × Text) → Pubkey → Text
  symbol_or_unknown symbols mint = elim (lookup mint symbols) [ none ↦ codes "?" | some s ↦ s ]

module _ {Pubkey F : Type 0} ⦃fl : F64 F⦄ ⦃keys : Eq Pubkey⦄ (display : Display Pubkey F) where
  open display use {to_string, two_decimals, from_u8}
  open fl use {of_u64, div}

  pub market_status_str : ℕ → Text
  market_status_str status = elim (from_u8 status) [
    | none ↦ codes "Unknown"
    | some s ↦ elim s [
      | active ↦ codes "Active"
      | paused ↦ codes "Paused"
      | closed ↦ codes "Closed"
      | frozen ↦ codes "Frozen"
    ]
  ]

  pub row : List (Pubkey × Text) → (i : ℕ) → Market Pubkey → List Text
  unfolding market_status_str
  row symbols i (pubkey, h) =
      to_decimal (i + 1)
      ∷ market_status_str h.status
      ∷ symbol_or_unknown display symbols h.base_mint
      ∷ symbol_or_unknown display symbols h.quote_mint
      ∷ two_decimals (div (of_u64 h.maker_fee_ppm) (of_u64 100))
      ∷ two_decimals (div (of_u64 h.taker_fee_ppm) (of_u64 100))
      ∷ to_string pubkey
      ∷ to_string h.base_mint
      ∷ to_string h.quote_mint
      ∷ []

  pub rows_from : List (Pubkey × Text) → (i : ℕ) → List (Market Pubkey) → List (List Text)
  unfolding row
  rows_from symbols i [] = []
  rows_from symbols i (m ∷ ms) = row symbols i m ∷ rows_from symbols (i + 1) ms

  -- The rest of `cmd_markets_list`, once the markets are there.
  pub list_markets : Mints Pubkey → (all : Bool) → List (Market Pubkey) → Listed
  unfolding retain_active rows_from
  list_markets tokens all found =
      let kept = kept_markets all found in
      let markets = sorted_markets display kept in
      let symbols = get_token_symbols tokens (sorted_mints display markets) in
      if is_empty kept
      then if all then no_markets else no_active_markets
      else listed (length markets) (print_table headers aligns (rows_from symbols 0 markets))

  unfoldable pub cmd_markets_list :
      {Error Signature : Type 0}
      → Files F
      → (program_at : Text → Program Pubkey (MarketStateHeader Pubkey) (MakerBook Pubkey))
      → (tokens_at : Text → Mints Pubkey) → Text
      → (all : Bool) → Result (Failure Error Signature) Listed
  unfolding list_markets
  cmd_markets_list files program_at tokens_at config_path all = do
    ctx ← map_err config_error (load_markets_context files config_path)
    markets ← context market_error (get_all_markets (program_at ctx.rpc_url))
    ok (list_markets (tokens_at ctx.rpc_url) all markets)
