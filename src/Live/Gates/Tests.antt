-- ===== src/Live/Gates/Tests.antt =====
-- Bars of the loop on concrete inputs (live_trading/trading/live_loop.py).
use scalping.Prelude.{
  ◌+◌, ◌≤◌, ◌≡◌, refl, true, none, some, List, [], ◌∷◌, length, arith, if◌then◌else◌,
}
use scalping.Float.Fixed.{Fixed, fixed_float}
use scalping.Risk.Guardian.{
  check, maybe_day_reset, raise_peak, evaluate, status, trigger, is_new_day, loss_limit_hit,
  drawdown_hit, daily_pct, drawdown,
}
use scalping.Market.{range}
use scalping.Signals.Mtf.{combine, compute_mtf_bias, confidence_gate, gate, mtf_allows_trade}
use scalping.Mt5.Positions.{
  group_rows, resolve_all, dedupe_positions, parse_open_positions_response,
}
use scalping.Live.Bar.{Bar, order_of, htf_bias_of, bias_of, entry_of, in_cooldown, range_entries}
use scalping.Live.Gates.{
  guard, ready_guardian, get_open_positions, account_of, on_new_bar, tick_bars,
}
use scalping.Live.Gates.Cleared.{cleared, on_new_bar-sent}
use scalping.Live.Gates.Limits.{tick_bars-opened}
use scalping.Live.Gates.Ranges.{ticks_opened, tick_bars-ticks_opened}
use scalping.Live.Samples.{dollars, engine, settings, account, bar}

-- The bar opens a trade.
cleared-bar : cleared settings bar engine ≡ true
unfolding account_of ready_guardian get_open_positions check maybe_day_reset raise_peak evaluate
    status is_new_day loss_limit_hit drawdown_hit daily_pct drawdown combine compute_mtf_bias
    confidence_gate gate mtf_allows_trade group_rows resolve_all dedupe_positions
    parse_open_positions_response htf_bias_of bias_of entry_of in_cooldown
cleared-bar = refl

on_new_bar-sent_example :
    (on_new_bar settings bar engine).sent
    ≡ (if cleared settings bar engine then some (order_of bar.decision) else none)
on_new_bar-sent_example = on_new_bar-sent settings bar engine

tick_bars-opened_example : length (tick_bars settings (bar ∷ bar ∷ []) engine).1 ≤ 1
tick_bars-opened_example = tick_bars-opened settings (bar ∷ bar ∷ []) engine

-- The equity is a tenth below its peak.
abbrev fallen : Bar Fixed
fallen = record bar { account = some (record account { equity = dollars 900 }) }

guard-fallen : (guard fallen (record account { equity = dollars 900 }) engine).1.halted ≡ true
unfolding guard ready_guardian check maybe_day_reset raise_peak evaluate status trigger is_new_day
    loss_limit_hit drawdown_hit daily_pct drawdown
guard-fallen = refl

abbrev range_bar : Bar Fixed
range_bar = record bar { decision = record bar.decision { regime = range } }

-- Two ticks, with two bars and with one.
abbrev ticks : List (List (Bar Fixed))
ticks = (range_bar ∷ range_bar ∷ []) ∷ (range_bar ∷ []) ∷ []

tick_bars-ticks_opened_example :
    range_entries 5 engine.trade_history + ticks_opened settings 5 ticks engine ≤ 2
unfolding range_entries
tick_bars-ticks_opened_example =
    tick_bars-ticks_opened settings 5 ticks engine (omega arith) (omega arith)
