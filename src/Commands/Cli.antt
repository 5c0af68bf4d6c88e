-- ===== src/Commands/Cli.antt =====
-- src/config.rs and src/main.rs: the command line and the choice of the command that it names. The
-- parser of the command line is left out.
use archer_market_maker.Base.{ℕ, Option, Bool}
use archer_market_maker.Base.Keys.{Eq}
use archer_market_maker.Base.Text.{Text}
use archer_market_maker.Base.Results.{ok, ◌>>=◌}
use archer_market_maker.Float.{F64}
use archer_market_maker.Client.{Mints}
use archer_market_maker.Client.Accounts.{Program}
use archer_market_maker.Commands.Chain.{World, MakerBook, MarketStateHeader}
use archer_market_maker.Commands.Markets.{Display, Listed, cmd_markets_list}
use archer_market_maker.Commands.View.{View, cmd_markets_view}
use archer_market_maker.Commands.Status.{Status, MakerBookStatus, cmd_status}
use archer_market_maker.Commands.Run.{Started, cmd_run}
use archer_market_maker.Commands.Withdraw.{cmd_withdraw}
use archer_market_maker.Commands.{
  Report, Outcome, cmd_init, cmd_set_delegate, cmd_set_expiry, cmd_deposit, cmd_kill,
}

-- `list` and `view`, with the path of the configuration.
pub data MarketsCommand : Type 0 where
  list : (config : Text) (all : Bool) → MarketsCommand
  view : (config : Text) (market : Option Text) → MarketsCommand

-- The subcommands, each with the path of its configuration.
pub data Cli (F : Type 0) : Type 0 where
  run : (config : Text) (shadow : Bool) → Cli F
  init : (config kind : Text) → Cli F
  deposit : (config : Text) (base quote : F) → Cli F
  withdraw : (config : Text) → Cli F
  kill : (config : Text) → Cli F
  status : (config : Text) → Cli F
  set_expiry : (config : Text) (slots : ℕ) → Cli F
  set_delegate : (config : Text) (delegate : Option Text) → Cli F
  markets : MarketsCommand → Cli F

-- What the commands come to, if they succeed; for `run`, the tasks that it starts.
pub data Answer (Pubkey Keypair F Signature : Type 0) : Type 0 where
  started : Started Pubkey Keypair F → Answer Pubkey Keypair F Signature
  reported : Report Pubkey F Signature → Answer Pubkey Keypair F Signature
  shown : Status Pubkey → Answer Pubkey Keypair F Signature
  listing : Listed → Answer Pubkey Keypair F Signature
  viewed : View Pubkey F → Answer Pubkey Keypair F Signature

module _ {Pubkey Keypair Instruction Hash Transaction Error Signature F S : Type 0} ⦃fl : F64 F⦄
    ⦃keys : Eq Pubkey⦄ (display : Display Pubkey F)
    (world : World Pubkey Keypair Instruction Hash Transaction Error Signature F S)
    (program_at : Text → Program Pubkey (MarketStateHeader Pubkey) (MakerBook Pubkey))
    (tokens_at : Text → Mints Pubkey) (book_status_of : ℕ → Option MakerBookStatus)
    (mid_at : ℕ → F) where
  abbrev Ends : Type 0
  Ends = Outcome world (Answer Pubkey Keypair F Signature)

  pub cmd_markets : MarketsCommand → Ends
  cmd_markets (list config all) = do
    listed ← cmd_markets_list display world.files program_at tokens_at config all
    ok (listing listed)
  cmd_markets (view config market) = do
    answer ← cmd_markets_view display world program_at tokens_at config market
    ok (viewed answer)

  -- `main`, once the command line is parsed.
  pub main : Cli F → Ends
  unfolding cmd_markets
  main (run config shadow) = do tasks ← cmd_run world config shadow mid_at; ok (started tasks)
  main (init config kind) = do report ← cmd_init world config kind; ok (reported report)
  main (deposit config base quote) = do
    report ← cmd_deposit world config base quote
    ok (reported report)
  main (withdraw config) = do report ← cmd_withdraw world config; ok (reported report)
  main (kill config) = do report ← cmd_kill world config; ok (reported report)
  main (status config) = do
    report ← cmd_status display book_status_of world config
    ok (shown report)
  main (set_expiry config slots) = do
    report ← cmd_set_expiry world config slots
    ok (reported report)
  main (set_delegate config delegate) = do
    report ← cmd_set_delegate world config delegate
    ok (reported report)
  main (markets cmd) = cmd_markets cmd
