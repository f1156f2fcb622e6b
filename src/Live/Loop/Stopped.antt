-- ===== src/Live/Loop/Stopped.antt =====
-- What a robot that is paused, or stopped by the guardian, does not do
-- (live_trading/trading/live_loop.py).
use scalping.Prelude.{◌≡◌, refl, Bool, true, false, none, List, [], ◌∷◌, All}
use scalping.Float.{Float}
use scalping.Live.Engine.{not_evaluated, Engine, set_trade_permission}
use scalping.Live.Bar.{Settings}
use scalping.Live.Commands.Mailbox.{IsStopped, process_commands-IsStopped}
use scalping.Live.Loop.{Loop, Tick, Turn, tick, join, run_loop}

module _ {ℓ} {W : Type ℓ} ⦃f : Float W⦄ where
  abbrev pub HasNoReset : Tick W → Type 0
  HasNoReset i = i.commands.reset_guardian ≡ none

  -- Nothing is opened, no stop is moved, and the loop is still stopped.
  abbrev pub IsIdle : Turn W → Type ℓ
  IsIdle t = (t.opened ≡ []) × (t.moves ≡ []) × IsStopped t.loop.engine

  tick-IsIdle :
      (c : Settings W) (i : Tick W) (l : Loop W)
      → HasNoReset i
      → IsStopped l.engine
      → IsIdle (tick c i l)
  unfolding tick
  tick-IsIdle c i l r h =
      let s : Engine W = set_trade_permission false not_evaluated l.engine in
      let (p, k) = process_commands-IsStopped c i.world i.commands s r h in
      rw p (refl, refl, (refl, k))

  join-IsIdle :
      (running : Bool) (l : Loop W) (t rest : Turn W)
      → IsStopped l.engine
      → IsIdle t
      → IsIdle rest
      → IsIdle (join running l t rest)
  unfolding join
  join-IsIdle true l t rest h (o, m, k) (o', m', k') = rw (o, m, o', m') (refl, refl, k')
  join-IsIdle false l t rest h i i' = (refl, refl, h)

  -- Once the guardian has halted and paused the robot, the loop opens nothing and moves no stop, over
  -- any number of iterations and whatever commands, bars and prices come, until a command resets the
  -- guardian.
  pub run_loop-IsIdle :
      (c : Settings W) (is : List (Tick W)) (l : Loop W)
      → All HasNoReset is
      → IsStopped l.engine
      → IsIdle (run_loop c is l)
  unfolding run_loop
  run_loop-IsIdle c [] l r h = (refl, refl, h)
  run_loop-IsIdle c (i ∷ is) l (r, rs) h =
      let idle = tick-IsIdle c i l r h in
      join-IsIdle l.engine.running l (tick c i l) (run_loop c is (tick c i l).loop) h idle
        (run_loop-IsIdle c is (tick c i l).loop rs idle.2)
