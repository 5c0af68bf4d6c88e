-- ===== src/Fills/Counts.antt =====
-- What the fill counters count.
use archer_market_maker.Base.{
  ℕ, ◌+◌, ◌%◌, ◌^◌, ◌<◌, ◌≡◌, refl, List, [], ◌∷◌, foldl, Option, none, some, arith, length,
  Option-cases, Bool-cases, inl, inr, if◌then◌else◌,
}
use archer_market_maker.Fills.{
  MakerFillEvent, Codecs, BookState, RpcLogsResponse, record_fill, fill_of, handle_line,
  handle_logs,
}

abbrev pub total : (MakerFillEvent → ℕ) → List MakerFillEvent → ℕ
total field [] = 0
total field (ev ∷ evs) = field ev + total field evs

abbrev pub and_fill : Option MakerFillEvent → List MakerFillEvent → List MakerFillEvent
and_fill none evs = evs
and_fill (some ev) evs = ev ∷ evs

-- The counters are `u64` values.
abbrev pub AreWords : BookState → Type 0
AreWords s = (s.fills_count < 2 ^ 64) × (s.fill_base_lots < 2 ^ 64) × (s.fill_quote_lots < 2 ^ 64)

-- The counters have grown by the number of the fills and by their lots, as `u64` values.
abbrev pub Counts : BookState → List MakerFillEvent → BookState → Type 0
Counts s evs s' =
    (s'.fills_count ≡ (s.fills_count + length evs) % 2 ^ 64)
    × (s'.fill_base_lots ≡ (s.fill_base_lots + total (λ ev. ev.base_lots_filled) evs) % 2 ^ 64)
    × (s'.fill_quote_lots ≡ (s.fill_quote_lots + total (λ ev. ev.quote_lots_filled) evs) % 2 ^ 64)

record_fills-Counts :
    (s : BookState) (evs : List MakerFillEvent)
    → AreWords s
    → Counts s evs (foldl record_fill s evs)
unfolding record_fill
record_fills-Counts s [] (a, b, c) = (omega arith, omega arith, omega arith)
record_fills-Counts s (ev ∷ evs) (a, b, c) =
    let (n, base, quote) =
      record_fills-Counts (record_fill s ev) evs (omega arith, omega arith, omega arith) in
    (omega (arith, n), omega (arith, base), omega (arith, quote))

module _ {Text : Type 0} (codecs : Codecs Text) where
  -- The fills in log lines.
  abbrev pub fills_in : List Text → List MakerFillEvent
  fills_in [] = []
  fills_in (line ∷ lines) = and_fill (fill_of codecs line) (fills_in lines)

  lines-record_fill :
      (s : BookState) (lines : List Text)
      → foldl (handle_line codecs) s lines ≡ foldl record_fill s (fills_in lines)
  unfolding handle_line
  lines-record_fill s [] = refl
  lines-record_fill s (line ∷ lines) = elim (Option-cases (fill_of codecs line)) [
    | inl e ↦ rw (e, and_fill, handle_line) (lines-record_fill s lines)
    | inr (ev, e) ↦ rw (e, and_fill, handle_line) (lines-record_fill (record_fill s ev) lines)
  ]

  -- A notification of logs adds to the counters the number of the fills that decode from its lines,
  -- their base lots and their quote lots, each as a `u64`; that of a failed transaction adds
  -- nothing.
  pub handle_logs-Counts :
      (s : BookState) (resp : RpcLogsResponse Text)
      → AreWords s
      → Counts s (if resp.is_err then [] else fills_in resp.logs) (handle_logs codecs s resp)
  unfolding handle_logs
  handle_logs-Counts s resp words = elim (Bool-cases resp.is_err) [
    | inl e ↦ rw e (record_fills-Counts s [] words)
    | inr e ↦
        rw e (rw (lines-record_fill s resp.logs) (record_fills-Counts s (fills_in resp.logs) words))
  ]
