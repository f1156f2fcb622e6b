-- ===== src/Signals/Smc/Blocks/Tests.antt =====
-- Runs of the order blocks (live_trading/signals/smc_engine.py).
use scalping.Prelude.{◌≡◌, refl, false, none, some, [], ◌∷◌}
use scalping.Float.Fixed.{Fixed, fixed_float}
use scalping.Market.{Candle, buy, bullish}
use scalping.Signals.Decision.{Event}
use scalping.Signals.Smc.{cfg_m5}
use scalping.Signals.Smc.Blocks.{
  Block, search_back, is_opposite, first_touch, keep_block, add_block, blocks_of,
  detect_order_blocks, detect_order_block_fake_breakout,
}
use scalping.Signals.Samples.{wave, dollars}

abbrev break : Event Fixed
break = record { type = buy; price = dollars 109; bar_index = 18; is_choch = false }

-- The last falling candle before the break.
abbrev block : Block Fixed
block = record {
  type = bullish;
  high = dollars 102;
  low = dollars 99;
  open_price = dollars 102;
  close = dollars 100;
  bar_index = 11;
  mitigated = false;
}

one_block : detect_order_blocks wave (break ∷ []) cfg_m5 ≡ (block ∷ [], [])
unfolding detect_order_blocks blocks_of add_block keep_block first_touch search_back is_opposite
one_block = refl

abbrev closing : Fixed → Candle Fixed
closing p = record { open_price = p; high = p; low = p; close = p; volume = dollars 1 }

-- A close above the block, then one inside it.
fake :
    detect_order_block_fake_breakout
      (closing (dollars 103) ∷ closing (dollars 101) ∷ [])
      (block ∷ [])
      []
      buy
      3
    ≡ some block
unfolding detect_order_block_fake_breakout
fake = refl

no_fake :
    detect_order_block_fake_breakout
      (closing (dollars 103) ∷ closing (dollars 104) ∷ [])
      (block ∷ [])
      []
      buy
      3
    ≡ none
unfolding detect_order_block_fake_breakout
no_fake = refl
