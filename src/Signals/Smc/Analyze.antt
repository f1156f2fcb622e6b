-- ===== src/Signals/Smc/Analyze.antt =====
-- live_trading/signals/smc_engine.py: `analyze_smc_structure`, and the part of its result that
-- `run_decision_engine` reads.
use scalping.Prelude.{◌+◌, ◌*◌, none, some, List, [], map, length, get_last?, ltb, if◌then◌else◌}
use scalping.Float.{Float, nought}
use scalping.Market.{Candle, Direction, neutral, Trend, flat}
use scalping.Signals.Decision.{Event, SmcResult}
use scalping.Signals.Smc.{SmcConfig, cfg_m5, detect_swing_highs, detect_swing_lows}
use scalping.Signals.Smc.Structure.{detect_bos_and_choch}
use scalping.Signals.Smc.Blocks.{Block, Mitigation, detect_order_blocks}
use scalping.Signals.Smc.Gaps.{Fvg, detect_fvgs}
use scalping.Signals.Smc.Sweeps.{Sweep, detect_liquidity_sweeps}
use scalping.Signals.Smc.Levels.{EqualLevel, detect_equal_levels}
use scalping.Signals.Smc.Score.{compute_smc_signal}

pub record SmcStructure {ℓ} (W : Type ℓ) : Type ℓ where
  pub current_price : W
  pub trend : Trend
  pub bos_signals : List (Event W)
  pub choch_signals : List (Event W)
  pub order_blocks : List (Block W)
  pub fair_value_gaps : List (Fvg W)
  pub liquidity_sweeps : List (Sweep W)
  pub equal_highs : List (EqualLevel W)
  pub equal_lows : List (EqualLevel W)
  pub mitigation_blocks : List (Mitigation W)
  pub smc_signal : Direction
  pub smc_score : W

module _ {ℓ} {W : Type ℓ} ⦃f : Float W⦄ where
  abbrev last_close : List (Candle W) → W
  last_close cs = elim (get_last? cs) [ none ↦ nought | some c ↦ c.close ]

  abbrev empty_structure : (price : W) → SmcStructure W
  empty_structure price = record {
    current_price = price;
    trend = flat;
    bos_signals = [];
    choch_signals = [];
    order_blocks = [];
    fair_value_gaps = [];
    liquidity_sweeps = [];
    equal_highs = [];
    equal_lows = [];
    mitigation_blocks = [];
    smc_signal = neutral;
    smc_score = nought;
  }

  abbrev pub structure_of : List (Candle W) → (cfg : SmcConfig W) → SmcStructure W
  structure_of cs cfg =
      let highs = detect_swing_highs cs cfg.swing_lookback in
      let lows = detect_swing_lows cs cfg.swing_lookback in
      let (bos, choch, trend) = detect_bos_and_choch cs highs lows cfg in
      let (obs, mitigated) = detect_order_blocks cs bos cfg in
      let gaps = detect_fvgs cs cfg in
      let sweeps = detect_liquidity_sweeps cs highs lows cfg in
      let (signal, score) =
        compute_smc_signal trend bos choch obs gaps sweeps (last_close cs) cfg in
      record {
        current_price = last_close cs;
        trend = trend;
        bos_signals = bos;
        choch_signals = choch;
        order_blocks = obs;
        fair_value_gaps = gaps;
        liquidity_sweeps = sweeps;
        equal_highs = detect_equal_levels highs cfg;
        equal_lows = detect_equal_levels lows cfg;
        mitigation_blocks = mitigated;
        smc_signal = signal;
        smc_score = score;
      }

  unfoldable pub analyze_smc_structure : List (Candle W) → SmcStructure W
  analyze_smc_structure cs =
      if ltb (length cs) ((cfg_m5 {W = W}).swing_lookback * 2 + 10)
      then empty_structure (last_close cs)
      else structure_of cs cfg_m5

  -- The fields that `run_decision_engine` reads.
  abbrev pub result_of : SmcStructure W → SmcResult W
  result_of s = record {
    trend = s.trend;
    bos_signals = s.bos_signals;
    choch_signals = s.choch_signals;
    order_blocks = map (λ b. record { type = b.type; high = b.high; low = b.low }) s.order_blocks;
    equal_highs = map (λ l. l.price) s.equal_highs;
    equal_lows = map (λ l. l.price) s.equal_lows;
  }
