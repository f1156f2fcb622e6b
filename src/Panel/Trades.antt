-- ===== src/Panel/Trades.antt =====
-- The trade commands of the panel: telegram_panel/services/trade_service.py, `send_trade_command` of
-- telegram_panel/services/mt5_service.py, and the dictionary that `redis_send_command` of
-- telegram_panel/redis_ipc.py puts them into. Lots and prices are any values.
use scalping.Prelude.{
  ◌≡◌, ◌∙◌, refl, ap, Bool, true, false, ◌&&◌, ◌||◌, Option, none, some, List, [], ◌∷◌, ◌++◌, ℕ,
  if◌then◌else◌, arith,
}
use scalping.Prelude.Text.{Text, codes, eq_text, lower}
use scalping.Float.{Float}
use scalping.Live.Engine.{Engine}
use scalping.Live.Bar.{Settings}
use scalping.Live.Commands.{
  RiskPayload, Commands, World, no_commands, on_pause, on_resume, on_stop, on_restart_mt5,
  on_update_risk, on_update_strategy,
}
use scalping.Live.Commands.Process.{on_close_all, on_reset_guardian, process_commands}
mod Tests

pub data TradeCommand {ℓ} (W : Type ℓ) : Type ℓ where
  close set_breakeven : (ticket : ℕ) → TradeCommand W
  partial_close modify_sl modify_tp set_trailing : (ticket : ℕ) → W → TradeCommand W
  close_all close_buy close_sell close_profitable close_losing : TradeCommand W

-- `params`: empty, a ticket, or a ticket with a lot, a price or a distance.
pub data Params {ℓ} (W : Type ℓ) : Type ℓ where
  empty : Params W
  ticket : ℕ → Params W
  ticket_and : ℕ → W → Params W

-- The dictionary in Redis, of what trade commands store, and the file of trade commands of the panel.
pub record TradeBoxes {ℓ} (W : Type ℓ) : Type ℓ where
  pub dictionary : Text → Option (Params W)
  pub trade_commands : List (TradeCommand W)

-- `_PANEL_COMMAND_MAP.get(command.strip().upper(), command.strip().lower())`, of a name in capitals.
engine_key : Text → Text
engine_key name =
    if eq_text name (codes "EMERGENCY_STOP") || eq_text name (codes "SAFE_SHUTDOWN")
    then codes "stop"
    else if eq_text name (codes "RECONNECT")
    then codes "restart_mt5"
    else lower name

module _ {ℓ} {W : Type ℓ} where
  command_name : TradeCommand W → Text
  command_name (close t) = codes "CLOSE"
  command_name (set_breakeven t) = codes "SET_BREAKEVEN"
  command_name (partial_close t x) = codes "PARTIAL_CLOSE"
  command_name (modify_sl t x) = codes "MODIFY_SL"
  command_name (modify_tp t x) = codes "MODIFY_TP"
  command_name (set_trailing t x) = codes "SET_TRAILING"
  command_name close_all = codes "CLOSE_ALL"
  command_name close_buy = codes "CLOSE_ALL_BUY"
  command_name close_sell = codes "CLOSE_ALL_SELL"
  command_name close_profitable = codes "CLOSE_PROFITABLE"
  command_name close_losing = codes "CLOSE_LOSING"

  params_of : TradeCommand W → Params W
  params_of (close t) = ticket t
  params_of (set_breakeven t) = ticket t
  params_of (partial_close t x) = ticket_and t x
  params_of (modify_sl t x) = ticket_and t x
  params_of (modify_tp t x) = ticket_and t x
  params_of (set_trailing t x) = ticket_and t x
  params_of _ = empty

  -- `cmds[engine_key] = params`.
  store : TradeCommand W → (Text → Option (Params W)) → Text → Option (Params W)
  unfolding engine_key command_name params_of
  store c d key = if eq_text (engine_key (command_name c)) key then some (params_of c) else d key

  -- `send_trade_command`, with whether Redis takes the command and whether the file can be written; the
  -- result is "success".
  pub send_trade_command :
      (has_redis file_written : Bool) → TradeCommand W → TradeBoxes W → TradeBoxes W × Bool
  unfolding store
  send_trade_command has_redis file_written c b =
      if has_redis
      then (record b { dictionary = store c b.dictionary }, true)
      else if file_written
      then (record b { trade_commands = b.trade_commands ++ c ∷ [] }, true)
      else (b, false)

  -- `cmds.get(key)` as a test: an empty dictionary counts as false.
  abbrev is_truthy : Option (Params W) → Bool
  is_truthy none = false
  is_truthy (some empty) = false
  is_truthy (some (ticket t)) = true
  is_truthy (some (ticket_and t x)) = true

  -- No parameter has a key that "update_risk" reads.
  abbrev no_risk : RiskPayload W
  no_risk = record {
    risk_percent = none;
    daily_loss_limit_pct = none;
    max_drawdown_pct = none;
    slippage_points = none;
    auto_trailing = none;
  }

  -- What `_process_commands` reads of the dictionary, key by key.
  pub read_dictionary : (Text → Option (Params W)) → Commands W
  read_dictionary d =
      let has : Text → Bool = λ key. is_truthy (d key) in
      record {
        pause = has (codes "pause");
        resume = has (codes "resume");
        stop = has (codes "stop");
        close_all = has (codes "close_all");
        reset_guardian = if has (codes "reset_guardian") then some false else none;
        start = has (codes "start");
        restart_engine = has (codes "restart_engine");
        restart_mt5 = has (codes "restart_mt5");
        restart_telegram = has (codes "restart_telegram");
        update_risk = if has (codes "update_risk") then some no_risk else none;
        update_strategy = if has (codes "update_strategy") then some none else none;
      }

  -- The keys of trade commands other than "CLOSE_ALL" are read by nothing, and "close_all" is false.
  store-read :
      (t : TradeCommand W) (d : Text → Option (Params W))
      → read_dictionary d ≡ no_commands
      → read_dictionary (store t d) ≡ no_commands
  unfolding store engine_key command_name params_of read_dictionary no_commands
  store-read close_all d e = ap (λ (m : Commands W). record m { close_all = false }) e
  store-read (close t) d e = e
  store-read (set_breakeven t) d e = e
  store-read (partial_close t x) d e = e
  store-read (modify_sl t x) d e = e
  store-read (modify_tp t x) d e = e
  store-read (set_trailing t x) d e = e
  store-read close_buy d e = e
  store-read close_sell d e = e
  store-read close_profitable d e = e
  store-read close_losing d e = e

  send_trade_command-read :
      (r f : Bool) (t : TradeCommand W) (b : TradeBoxes W)
      → read_dictionary b.dictionary ≡ no_commands
      → let (b', success) = send_trade_command r f t b in
        (success ≡ (r || f)) × (read_dictionary b'.dictionary ≡ no_commands)
  unfolding send_trade_command
  send_trade_command-read true f t b e = (refl, store-read t b.dictionary e)
  send_trade_command-read false true t b e = (refl, e)
  send_trade_command-read false false t b e = (refl, e)

module _ {ℓ} {W : Type ℓ} ⦃f : Float W⦄ where
  process_commands-none :
      (c : Settings W) (w : World W) (s : Engine W) → process_commands c w no_commands s ≡ s
  unfolding process_commands on_close_all on_reset_guardian on_pause on_resume on_stop
      on_restart_mt5 on_update_risk on_update_strategy no_commands
  process_commands-none c w s = refl

  -- Any trade command of the panel, sent while the dictionary in Redis has no command that the engine
  -- would carry out: it counts as sent exactly if Redis takes it or the file can be written; and in each
  -- case the next poll, which reads the dictionary with the entry of the command in it, changes nothing
  -- of the engine's state, neither its log of trades nor the status that closing a position publishes.
  pub send_trade_command-unread :
      (has_redis file_written : Bool) (t : TradeCommand W) (b : TradeBoxes W) (c : Settings W)
      (w : World W) (s : Engine W)
      → read_dictionary b.dictionary ≡ no_commands
      → let (b', success) = send_trade_command has_redis file_written t b in
        (success ≡ (has_redis || file_written))
        × (process_commands c w (read_dictionary b'.dictionary) s ≡ s)
  send_trade_command-unread r f t b c w s e =
      let (sent, idle) = send_trade_command-read r f t b e in
      (sent, ap (λ (m : Commands W). process_commands c w m s) idle ∙ process_commands-none c w s)
