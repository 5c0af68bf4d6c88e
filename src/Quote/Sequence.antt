-- ===== src/Quote/Sequence.antt =====
-- Which writes a full book update sends, as the program reads them.
use archer_market_maker.Base.{
  ℕ, ◌+◌, ◌^◌, ◌≤◌, ◌<◌, ◌≡◌, refl, List, [], ◌∷◌, map, arith, add_u64, length, if◌then◌else◌,
  Bool-cases, inl, inr,
}
use archer_market_maker.Sdk.{
  BookUpdate, Encoders, Decoding, Write, update_mid, update_book, sequence_of,
}
use archer_market_maker.Quote.{BookAuthority, book_pda, update_instructions}

-- `n`, `n + 1`, `n + 2` and so on.
abbrev pub Consecutive : ℕ → List ℕ → Type 0
Consecutive n [] = Unit
Consecutive n (m ∷ ms) = (m ≡ n) × Consecutive (n + 1) ms

module _ {Pubkey Instruction S : Type 0} (enc : Encoders Pubkey Instruction S)
    (dec : Decoding enc) where
  open dec use {decode, decode-mid, decode-clear, decode-book}

  -- The writes that a full update is meant to be.
  abbrev pub full_writes : BookAuthority Pubkey → Pubkey → BookUpdate S → ℕ → List (Write Pubkey S)
  full_writes a market u seq =
      let book = enc.derive_maker_book market a.maker in
      if u.mid_price_changed
      then update_mid a.signer book u.new_mid_price_ticks seq
        ∷ update_book a.signer market book u.new_mid_price_ticks u.bid_levels u.ask_levels (seq + 1)
        ∷ []
      else update_book a.signer market book u.new_mid_price_ticks u.bid_levels u.ask_levels seq ∷ []

  -- The program reads a full update as a write of the book by the signer on the maker's book, with
  -- the mid, bids and asks of the update, after a move of the mid to that value if the mid changed.
  -- The sequence numbers count up from the one given, and the number returned is the last of them.
  pub update_instructions_lem :
      (a : BookAuthority Pubkey) (market : Pubkey) (u : BookUpdate S) (seq : ℕ)
      → seq + 1 < 2 ^ 64
      → let (ixs, last) = update_instructions enc a market u seq in
        let writes = map decode ixs in
        (writes ≡ full_writes a market u seq)
        × Consecutive seq (map sequence_of writes)
        × (last + 1 ≡ seq + length ixs)
  unfolding update_instructions book_pda
  update_instructions_lem a market u seq h =
      let no_wrap : add_u64 seq 1 ≡ seq + 1 = omega arith in
      elim (Bool-cases u.mid_price_changed) [
        | inl e ↦
            rw (e, decode-mid, decode-book) (rw no_wrap (refl, (refl, (refl, tt)), omega arith))
        | inr e ↦ rw (e, decode-book) (refl, (refl, tt), refl)
      ]

module _ {Pubkey Instruction S : Type 0} (enc : Encoders Pubkey Instruction S) where
  pub length-update_instructions :
      (a : BookAuthority Pubkey) (market : Pubkey) (u : BookUpdate S) (seq : ℕ)
      → length (update_instructions enc a market u seq).0 ≤ 2
  unfolding update_instructions
  length-update_instructions a market u seq = ground arith
