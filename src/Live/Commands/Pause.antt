-- ===== src/Live/Commands/Pause.antt =====
-- When the robot is paused after `_process_commands` (live_trading/trading/live_loop.py).
use scalping.Prelude.{
  ◌≡◌, refl, ◌∙◌, Bool, true, false, not, ◌&&◌, ◌||◌, Option, none, some, List, [], ◌∷◌,
  if◌then◌else◌, Bool-cases, inl, inr, arith,
}
use scalping.Prelude.Int.{ℤ}
use scalping.Float.{Float}
use scalping.Mt5.Positions.{Row, Positions}
use scalping.Risk.Guardian.Halt.{reset_accepted, reset_halt_lem}
use scalping.Live.Engine.{Account, Engine, write_state, log_trade, running}
use scalping.Live.Bar.{Settings}
use scalping.Live.Gates.{get_open_positions}
use scalping.Live.Commands.{
  Commands, RiskPayload, World, set_risk_percent, set_daily_limit, set_max_drawdown, set_slippage,
  set_trailing, ◌and_then◌, on_pause, on_resume, on_stop, on_restart_mt5, on_update_risk,
  on_update_strategy,
}
use scalping.Live.Commands.Process.{
  closing_row, close_each, close_all_positions, balance_of, account_for, after_reset, on_close_all,
  on_reset_guardian, process_commands,
}

module _ {ℓ} {W : Type ℓ} where
  -- What decides whether the robot trades: running, paused, and the guardian's halt.
  abbrev pub mode : Engine W → Bool × Bool × Bool
  mode s = (s.running, s.paused, s.guardian.halted)

  abbrev KeepsMode : (Engine W → Engine W × Bool) → Type ℓ
  KeepsMode step = (s : Engine W) → mode (step s).0 ≡ mode s

  set_risk_percent-KeepsMode : (v : Option (Option W)) → KeepsMode (set_risk_percent v)
  unfolding set_risk_percent
  set_risk_percent-KeepsMode none s = refl
  set_risk_percent-KeepsMode (some none) s = refl
  set_risk_percent-KeepsMode (some (some v)) s = refl

  set_daily_limit-KeepsMode : (v : Option (Option W)) → KeepsMode (set_daily_limit v)
  unfolding set_daily_limit
  set_daily_limit-KeepsMode none s = refl
  set_daily_limit-KeepsMode (some none) s = refl
  set_daily_limit-KeepsMode (some (some v)) s = refl

  set_max_drawdown-KeepsMode : (v : Option (Option W)) → KeepsMode (set_max_drawdown v)
  unfolding set_max_drawdown
  set_max_drawdown-KeepsMode none s = refl
  set_max_drawdown-KeepsMode (some none) s = refl
  set_max_drawdown-KeepsMode (some (some v)) s = refl

  set_slippage-KeepsMode : (v : Option (Option ℤ)) → KeepsMode (set_slippage v)
  unfolding set_slippage
  set_slippage-KeepsMode none s = refl
  set_slippage-KeepsMode (some none) s = refl
  set_slippage-KeepsMode (some (some v)) s = refl

  set_trailing-KeepsMode : (v : Option Bool) → KeepsMode (set_trailing v)
  unfolding set_trailing
  set_trailing-KeepsMode none s = refl
  set_trailing-KeepsMode (some v) s = refl

  mode-and_then :
      (r : Engine W × Bool) (step : Engine W → Engine W × Bool)
      → KeepsMode step
      → mode (r and_then step).0 ≡ mode r.0
  unfolding ◌and_then◌
  mode-and_then (s, true) step k = k s
  mode-and_then (s, false) step k = refl

  mode-on_update_risk :
      (p : Option (RiskPayload W)) (s : Engine W) → mode (on_update_risk p s) ≡ mode s
  unfolding on_update_risk
  mode-on_update_risk none s = refl
  mode-on_update_risk (some p) s =
      let r1 = set_risk_percent p.risk_percent s in
      let r2 = r1 and_then set_daily_limit p.daily_loss_limit_pct in
      let r3 = r2 and_then set_max_drawdown p.max_drawdown_pct in
      let r4 = r3 and_then set_slippage p.slippage_points in
      mode-and_then r4 (set_trailing p.auto_trailing) (set_trailing-KeepsMode p.auto_trailing)
      ∙ mode-and_then r3 (set_slippage p.slippage_points) (set_slippage-KeepsMode p.slippage_points)
      ∙ mode-and_then r2 (set_max_drawdown p.max_drawdown_pct)
          (set_max_drawdown-KeepsMode p.max_drawdown_pct)
      ∙ mode-and_then r1 (set_daily_limit p.daily_loss_limit_pct)
          (set_daily_limit-KeepsMode p.daily_loss_limit_pct)
      ∙ set_risk_percent-KeepsMode p.risk_percent s

  mode-on_update_strategy :
      (p : Option (Option (Option ℤ))) (s : Engine W) → mode (on_update_strategy p s) ≡ mode s
  unfolding on_update_strategy
  mode-on_update_strategy none s = refl
  mode-on_update_strategy (some none) s = refl
  mode-on_update_strategy (some (some none)) s = refl
  mode-on_update_strategy (some (some (some v))) s = refl

  -- Closing positions changes the log and the published status only.
  abbrev kept : Engine W → Bool × Bool × Bool × Option (Account W)
  kept s = (s.running, s.paused, s.guardian.halted, s.last_acc_info)

  kept-close_each :
      (c : Settings W) (w : World W) (rs : List (Row W)) (s : Engine W)
      → kept (close_each c w rs s) ≡ kept s
  unfolding close_each
  kept-close_each c w [] s = refl
  kept-close_each c w (r ∷ rs) s = elim (Bool-cases (w.close_succeeds r.ticket)) [
    | inl e ↦
        rw (close_each, e)
          (kept-close_each c w rs (
            write_state running (record s {
              trade_history =
                  log_trade c.max_trade_history w.now (closing_row r.ticket) s.trade_history;
            })))
    | inr e ↦ rw (close_each, e) (kept-close_each c w rs s)
  ]

  kept-close_all_positions :
      (c : Settings W) (w : World W) (p : Option (Positions W)) (s : Engine W)
      → kept (close_all_positions c w p s) ≡ kept s
  unfolding close_all_positions
  kept-close_all_positions c w none s = refl
  kept-close_all_positions c w (some p) s = kept-close_each c w p.result s

module _ {ℓ} {W : Type ℓ} ⦃f : Float W⦄ where
  -- "reset_guardian" is among the commands, and has a positive balance if it needs one.
  unfoldable pub reset_succeeds : Option Bool → World W → Engine W → Bool
  unfolding balance_of account_for
  reset_succeeds none w s = false
  reset_succeeds (some r) w s =
      reset_accepted r (if r then balance_of (account_for r w s.last_acc_info) else none)

  mode-on_reset_guardian :
      (r : Option Bool) (w : World W) (s : Engine W)
      → let ok = reset_succeeds r w s in
        mode (on_reset_guardian r w s)
        ≡ (s.running, s.paused && not ok, s.guardian.halted && not ok)
  unfolding on_reset_guardian reset_succeeds after_reset balance_of account_for
  mode-on_reset_guardian none w s = ground arith
  mode-on_reset_guardian (some r) w s = ground (
    arith,
    reset_halt_lem w.today r (if r then balance_of (account_for r w s.last_acc_info) else none)
        s.guardian,
  )

  kept-on_close_all :
      (asked : Bool) (c : Settings W) (w : World W) (s : Engine W)
      → kept (on_close_all asked c w s) ≡ kept s
  unfolding on_close_all
  kept-on_close_all true c w s = kept-close_all_positions c w (get_open_positions c w.positions s) s
  kept-on_close_all false c w s = refl

  kept-on_pause :
      (m : Commands W) (s : Engine W)
      → kept (on_pause m s) ≡ (s.running, m.pause || s.paused, s.guardian.halted, s.last_acc_info)
  unfolding on_pause
  kept-on_pause m s = ground arith

  kept-on_resume :
      (asked pause_applied : Bool) (s : Engine W)
      → kept (on_resume asked pause_applied s) ≡ (
        s.running,
        s.paused && not (asked && not pause_applied && not s.guardian.halted),
        s.guardian.halted,
        s.last_acc_info,
      )
  unfolding on_resume
  kept-on_resume asked pause_applied s = ground arith

  kept-on_stop :
      (asked : Bool) (s : Engine W)
      → kept (on_stop asked s)
        ≡ (s.running && not asked, s.paused, s.guardian.halted, s.last_acc_info)
  unfolding on_stop
  kept-on_stop true s = ground arith
  kept-on_stop false s = ground arith

  mode-on_restart_mt5 : (m : Commands W) (s : Engine W) → mode (on_restart_mt5 m s) ≡ mode s
  unfolding on_restart_mt5
  mode-on_restart_mt5 m s = ground arith

  reset_succeeds_ext :
      (r : Option Bool) (w : World W) (s s' : Engine W)
      → s.last_acc_info ≡ s'.last_acc_info
      → reset_succeeds r w s ≡ reset_succeeds r w s'
  unfolding reset_succeeds
  reset_succeeds_ext none w s s' e = refl
  reset_succeeds_ext (some r) w s s' e = rw e refl

  -- Whether the robot runs, is paused and is halted after the commands of one poll. A pause beats a
  -- resume and a start of the same poll, a reset of the guardian beats a pause, and while the guardian
  -- stays halted neither a resume nor a start is obeyed.
  pub process_commands-mode :
      (c : Settings W) (w : World W) (m : Commands W) (s : Engine W)
      → let ok = reset_succeeds m.reset_guardian w s in
        let halted = s.guardian.halted && not ok in
        let resumed = not m.pause && m.resume && not s.guardian.halted in
        let started = not m.pause && m.start && not halted in
        mode (process_commands c w m s) ≡ (
          s.running && not m.stop && not m.restart_engine,
          (m.pause || s.paused) && not resumed && not ok && not started,
          halted,
        )
  unfolding process_commands
  process_commands-mode c w m s =
      let s0 = on_pause m s in
      let s1 = on_resume m.resume m.pause s0 in
      let s1' = on_stop m.stop s1 in
      let s2 = on_close_all m.close_all c w s1' in
      let s2' = on_reset_guardian m.reset_guardian w s2 in
      let s3 = on_resume m.start m.pause s2' in
      let s3' = on_stop m.restart_engine s3 in
      let s4 = on_restart_mt5 m s3' in
      let s5 = on_update_risk m.update_risk s4 in
      ground (
        arith,
        kept-on_pause m s,
        kept-on_resume m.resume m.pause s0,
        kept-on_stop m.stop s1,
        kept-on_close_all m.close_all c w s1',
        mode-on_reset_guardian m.reset_guardian w s2,
        reset_succeeds_ext m.reset_guardian w s2 s,
        kept-on_resume m.start m.pause s2',
        kept-on_stop m.restart_engine s3,
        mode-on_restart_mt5 m s3',
        mode-on_update_risk m.update_risk s4,
        mode-on_update_strategy m.update_strategy s5,
      )
