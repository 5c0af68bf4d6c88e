-- ===== src/Fills/Books.antt =====
-- What the account subscription makes of the inventory and of the sequence number.
use archer_market_maker.Base.{
  ℕ, ◌≤◌, ◌≡◌, refl, ap, ◌∙◌, max, List, [], ◌∷◌, map, foldl, Option, none, some, arith, add_u64,
  All, Option-cases, Bool-cases, inl, inr,
}
use archer_market_maker.Fills.{
  MakerBook, Codecs, BookState, RpcLogsResponse, Event, cancelled, logs, account, record_fill,
  store_book, fill_of, handle_line, handle_logs, book_of, handle_account, run_once,
}

abbrev pub last_or : {A : Type 0} → A → List A → A
last_or a [] = a
last_or a (x ∷ xs) = last_or x xs

-- The base lots, quote lots and mid ticks that the engine reads.
abbrev pub inventory : BookState → ℕ × ℕ × ℕ
inventory s = (s.base_total_lots, s.quote_total_lots, s.cached_mid_ticks)

-- The same of a book: free and locked together.
abbrev pub inventory_of : MakerBook → ℕ × ℕ × ℕ
inventory_of b =
    (add_u64 b.base_free b.base_locked, add_u64 b.quote_free b.quote_locked, b.mid_price_ticks)

foldl-max_le : (n : ℕ) (ms : List ℕ) → (n ≤ foldl max n ms) × All (λ m. m ≤ foldl max n ms) ms
foldl-max_le n [] = (omega arith, tt)
foldl-max_le n (m ∷ ms) =
    let (le, all) = foldl-max_le (max n m) ms in (omega (arith, le), (omega (arith, le), all))

abbrev pub and_book : Option MakerBook → List MakerBook → List MakerBook
and_book none bs = bs
and_book (some b) bs = b ∷ bs

module _ {Text : Type 0} (codecs : Codecs Text) where
  -- The books that a connection reads before it ends.
  abbrev pub books_in : List (Event Text) → List MakerBook
  books_in [] = []
  books_in (cancelled ∷ es) = []
  books_in (logs none ∷ es) = []
  books_in (account none ∷ es) = []
  books_in (logs (some resp) ∷ es) = books_in es
  books_in (account (some update) ∷ es) = and_book (book_of codecs update) (books_in es)

  -- Log lines leave the inventory and the sequence number alone.
  abbrev SameBook : BookState → BookState → Type 0
  SameBook s s' =
      (inventory s' ≡ inventory s) × (s'.onchain_sequence_number ≡ s.onchain_sequence_number)

  handle_line-SameBook : (s : BookState) (line : Text) → SameBook s (handle_line codecs s line)
  unfolding handle_line record_fill
  handle_line-SameBook s line = elim (Option-cases (fill_of codecs line)) [
    | inl e ↦ rw (e, handle_line) (refl, refl)
    | inr (ev, e) ↦ rw (e, handle_line) (refl, refl)
  ]

  lines-SameBook :
      (s : BookState) (lines : List Text) → SameBook s (foldl (handle_line codecs) s lines)
  lines-SameBook s [] = (refl, refl)
  lines-SameBook s (line ∷ lines) =
      let (i, n) = lines-SameBook (handle_line codecs s line) lines in
      let (i', n') = handle_line-SameBook s line in (i ∙ i', n ∙ n')

  handle_logs-SameBook :
      (s : BookState) (resp : RpcLogsResponse Text) → SameBook s (handle_logs codecs s resp)
  unfolding handle_logs
  handle_logs-SameBook s resp = elim (Bool-cases resp.is_err) [
    | inl e ↦ rw e (refl, refl)
    | inr e ↦ rw e (lines-SameBook s resp.logs)
  ]

  -- What a connection makes of the book: the inventory of the last one read, the highest number.
  abbrev Follows : BookState → List MakerBook → BookState → Type 0
  Follows s books s' =
      (inventory s' ≡ last_or (inventory s) (map inventory_of books))
      × (s'.onchain_sequence_number
          ≡ foldl max s.onchain_sequence_number (map (λ b. b.last_updated_sequence_number) books))

  Follows-SameBook :
      (s s1 s' : BookState) (books : List MakerBook)
      → SameBook s s1
      → Follows s1 books s'
      → Follows s books s'
  Follows-SameBook s s1 s' books (i, n) (i', n') = (
    i' ∙ ap (λ v. last_or v (map inventory_of books)) i,
    n' ∙ ap (λ m. foldl max m (map (λ b. b.last_updated_sequence_number) books)) n,
  )

  run_once-Follows :
      (s : BookState) (es : List (Event Text)) → Follows s (books_in es) (run_once codecs s es).0
  unfolding run_once handle_account store_book
  run_once-Follows s [] = (refl, refl)
  run_once-Follows s (cancelled ∷ es) = (refl, refl)
  run_once-Follows s (logs none ∷ es) = (refl, refl)
  run_once-Follows s (account none ∷ es) = (refl, refl)
  run_once-Follows s (logs (some resp) ∷ es) =
      Follows-SameBook s (handle_logs codecs s resp)
        (run_once codecs (handle_logs codecs s resp) es).0 (books_in es)
        (handle_logs-SameBook s resp) (run_once-Follows (handle_logs codecs s resp) es)
  run_once-Follows s (account (some update) ∷ es) = elim (Option-cases (book_of codecs update)) [
    | inl e ↦ rw (e, and_book, run_once, handle_account) (run_once-Follows s es)
    | inr (b, e) ↦ rw (e, and_book, run_once, handle_account) (run_once-Follows (store_book s b) es)
  ]

  -- After a connection the inventory and the mid are those of the last book that it read, as they
  -- were if it read none; and the sequence number is the highest of the one before and of all
  -- books read, in whatever order they came, so it never falls and never lags behind a book.
  pub run_once_books :
      (s : BookState) (es : List (Event Text))
      → let s' = (run_once codecs s es).0 in
        (inventory s' ≡ last_or (inventory s) (map inventory_of (books_in es)))
        × (s'.onchain_sequence_number
            ≡ foldl max s.onchain_sequence_number
                (map (λ b. b.last_updated_sequence_number) (books_in es)))
        × (s.onchain_sequence_number ≤ s'.onchain_sequence_number)
        × All
            (λ n. n ≤ s'.onchain_sequence_number)
            (map (λ b. b.last_updated_sequence_number) (books_in es))
  run_once_books s es =
      let (i, n) = run_once-Follows s es in
      let (le, all) =
        foldl-max_le s.onchain_sequence_number
          (map (λ b. b.last_updated_sequence_number) (books_in es)) in
      (i, n, rw n le, rw n all)
