-- ===== src/System/Drains.antt =====
-- A task of the running bot that is left alone: its pending stores one after the other, and the
-- loads of the engine one after the other.
use archer_market_maker.Base.{ℕ, zero, suc, refl, List, [], ◌∷◌}
use archer_market_maker.Float.{F64}
use archer_market_maker.System.State.{Store, do_store, do_stores}
use archer_market_maker.System.Bot.{Setup, Bot, Outside, load, next}
use archer_market_maker.System.Step.{feed_store, fills_store, engine_loads, Reach, then_step}

module _ {F Instruction Transaction Signature : Type 0} where
  -- The bot after all stores of the feed, or of the subscriptions.
  abbrev pub feed_stored :
      List (Store F)
      → Bot F Instruction Transaction Signature
      → Bot F Instruction Transaction Signature
  feed_stored sts b = record b { shared = do_stores b.shared sts; feed_todo = [] }

  abbrev pub fills_stored :
      List (Store F)
      → Bot F Instruction Transaction Signature
      → Bot F Instruction Transaction Signature
  fills_stored sts b = record b { shared = do_stores b.shared sts; fills_todo = [] }

  -- The bot after the next `n` loads of the engine.
  abbrev pub loaded :
      ℕ
      → Outside
      → Bot F Instruction Transaction Signature
      → Bot F Instruction Transaction Signature
  loaded zero o b = b
  loaded (suc n) o b =
      loaded n o (record b { reads = load b.point b.shared o b.reads; point = next b.point })

module _ {F Text Hash Market Quotes Pubkey Instruction Transaction Signature S : Type 0}
    ⦃fl : F64 F⦄
    (setup : Setup F Text Hash Market Quotes Pubkey Instruction Transaction Signature S)
    {first : Bot F Instruction Transaction Signature} where
  pub Reach-feed_stored :
      (b : Bot F Instruction Transaction Signature) (sts : List (Store F))
      → Reach setup first (record b { feed_todo = sts })
      → Reach setup first (feed_stored sts b)
  Reach-feed_stored b [] r = r
  Reach-feed_stored b (st ∷ sts) r =
      Reach-feed_stored (record b { shared = do_store b.shared st }) sts
        (then_step r (feed_store (record b { feed_todo = st ∷ sts }) st sts refl))

  pub Reach-fills_stored :
      (b : Bot F Instruction Transaction Signature) (sts : List (Store F))
      → Reach setup first (record b { fills_todo = sts })
      → Reach setup first (fills_stored sts b)
  Reach-fills_stored b [] r = r
  Reach-fills_stored b (st ∷ sts) r =
      Reach-fills_stored (record b { shared = do_store b.shared st }) sts
        (then_step r (fills_store (record b { fills_todo = st ∷ sts }) st sts refl))

  pub Reach-loaded :
      (n : ℕ) (o : Outside) (b : Bot F Instruction Transaction Signature)
      → Reach setup first b
      → Reach setup first (loaded n o b)
  Reach-loaded zero o b r = r
  Reach-loaded (suc n) o b r =
      Reach-loaded n o (record b { reads = load b.point b.shared o b.reads; point = next b.point })
        (then_step r (engine_loads b o))
