-- ===== src/Mt5/Candles/Tests.antt =====
-- Runs of `fetch_candles` of live_trading/mt5/connector.py on rows.
use scalping.Prelude.{
  arith, ℕ, ◌*◌, ◌≤◌, ◌≡◌, refl, Option, none, some, List, [], ◌∷◌, map, All, length,
}
use scalping.Mt5.Candles.{
  Bar, h1_request_minutes, request_minutes, readable, insert, sort_onto, once, complete,
  completed_candles, candles_of_rows,
}
use scalping.Mt5.Candles.Ordered.{IsIncreasing, IsClosed, candles_of_rows-IsOrdered}

abbrev row : ℕ → ℕ → Option (Bar ℕ)
row hour price = some (record { time = hour * 3600; candle = price })

-- Out of order, with a row that cannot be read and a time that is there twice.
abbrev rows : List (Option (Bar ℕ))
rows = row 3 30 ∷ row 1 10 ∷ none ∷ row 2 20 ∷ row 1 11 ∷ row 4 40 ∷ []

hours : map (λ b. b.candle) (candles_of_rows rows 60 2 (5 * 3600)) ≡ 20 ∷ 30 ∷ []
unfolding candles_of_rows completed_candles readable sort_onto insert once complete
hours = refl

minutes : map (λ b. b.candle) (candles_of_rows rows 5 9 (5 * 3600)) ≡ 10 ∷ 20 ∷ 30 ∷ []
unfolding candles_of_rows completed_candles readable sort_onto insert once complete
minutes = refl

asks_for_weeks : request_minutes 60 300 ≡ 29520
unfolding request_minutes h1_request_minutes
asks_for_weeks = refl

candles_of_rows-IsOrdered_example :
    let cs = candles_of_rows rows 60 2 (5 * 3600) in
    IsIncreasing cs × (length cs ≤ 2) × All (IsClosed 60 (5 * 3600)) cs
candles_of_rows-IsOrdered_example = candles_of_rows-IsOrdered rows 60 2 (5 * 3600) (omega arith)
