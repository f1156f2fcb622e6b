-- ===== src/Signals/Indicators/Tests.antt =====
-- Runs of live_trading/signals/gold_engine.py on fixed-point numbers.
use scalping.Prelude.{ℕ, ◌*◌, ◌≡◌, refl, some, List, [], ◌∷◌, get_last?, arith}
use scalping.Float.{max_of, sum_from}
use scalping.Float.Fixed.{Fixed, fixed_float}
use scalping.Market.{Candle}
use scalping.Signals.Indicators.{calc_ema, calc_ema_array, calc_atr_array, calc_rsi}
use scalping.Signals.Indicators.Series.{calc_ema-last}
use scalping.Signals.Samples.{dollars}

abbrev closes : List Fixed
closes = dollars 10 ∷ dollars 20 ∷ dollars 30 ∷ dollars 10 ∷ []

abbrev bar : ℕ → Candle Fixed
bar n = record {
  open_price = dollars n;
  high = dollars (n * 2);
  low = dollars n;
  close = dollars n;
  volume = dollars 1;
}

abbrev candles : List (Candle Fixed)
candles = bar 10 ∷ bar 12 ∷ bar 11 ∷ []

averages : calc_ema_array closes 3 ≡ dollars 20 ∷ dollars 20 ∷ dollars 20 ∷ dollars 15 ∷ []
unfolding calc_ema_array
averages = refl

last_average : calc_ema closes 3 ≡ dollars 15
unfolding calc_ema
last_average = refl

ranges : calc_atr_array candles 1 ≡ dollars 0 ∷ dollars 14 ∷ dollars 11 ∷ []
unfolding calc_atr_array max_of sum_from
ranges = refl

no_loss : calc_rsi (dollars 10 ∷ dollars 20 ∷ dollars 30 ∷ []) 2 ≡ dollars 100
unfolding calc_rsi
no_loss = refl

calc_ema-last_example :
    (v : Fixed) × (get_last? (calc_ema_array closes 3) ≡ some v)
    × (calc_ema closes 3 ≡ fixed_float.round v 4)
calc_ema-last_example = calc_ema-last closes 3 (omega arith) (omega arith)
