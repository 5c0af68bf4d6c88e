-- ===== src/Engine/Sends.antt =====
-- What the program reads from the sends of the engine.
use archer_market_maker.Base.{◌≡◌, List, [], ◌∷◌, ◌++◌, map}
use archer_market_maker.Sdk.{Encoders, Decoding, Write, update_mid, clear, update_book}
use archer_market_maker.Engine.State.{Send, fired, awaited}

abbrev pub instructions_of : {Instruction : Type 0} → Send Instruction → List Instruction
instructions_of (fired ixs priority cu) = ixs
instructions_of (awaited ixs priority cu) = ixs

-- What a transaction does to the book, by its last write.
pub data Kind : Type 0 where
  nothing clears mid_only writes_book : Kind

abbrev pub kind_of : {Pubkey S : Type 0} → List (Write Pubkey S) → Kind
kind_of [] = nothing
kind_of (update_mid signer book ticks seq ∷ []) = mid_only
kind_of (clear signer book seq ∷ []) = clears
kind_of (update_book signer market book mid bids asks seq ∷ []) = writes_book
kind_of (first ∷ w ∷ ws) = kind_of (w ∷ ws)

-- A write that moves the mid of a book, or sets it to something other than zero.
abbrev pub KeepsMidZero : {Pubkey S : Type 0} → Write Pubkey S → Type 0
KeepsMidZero (update_mid signer book ticks seq) = ⊥
KeepsMidZero (clear signer book seq) = Unit
KeepsMidZero (update_book signer market book mid bids asks seq) = mid ≡ 0

module _ {Pubkey Instruction S : Type 0} {enc : Encoders Pubkey Instruction S}
    (dec : Decoding enc) where
  abbrev pub writes_of : Send Instruction → List (Write Pubkey S)
  writes_of s = map dec.decode (instructions_of s)

  -- All writes, in the order in which they are sent.
  abbrev pub sent_writes : List (Send Instruction) → List (Write Pubkey S)
  sent_writes [] = []
  sent_writes (s ∷ ss) = writes_of s ++ sent_writes ss

  abbrev pub kinds : List (Send Instruction) → List Kind
  kinds = map (λ s. kind_of (writes_of s))
