-- ===== src/Live/Commands/Mailbox.antt =====
-- Several polls of the mailbox (live_trading/trading/live_loop.py).
use scalping.Prelude.{◌≡◌, true, false, none, List, [], ◌∷◌, All, arith}
use scalping.Float.{Float}
use scalping.Live.Engine.{Engine}
use scalping.Live.Bar.{Settings}
use scalping.Live.Commands.{
  Commands, World, no_commands, send_command, clear_commands, pause, resume,
}
use scalping.Live.Commands.Process.{process_commands}
use scalping.Live.Commands.Pause.{reset_succeeds, process_commands-mode}

module _ {ℓ} {W : Type ℓ} ⦃f : Float W⦄ where
  abbrev pub HasNoReset : World W × Commands W → Type 0
  HasNoReset (w, m) = m.reset_guardian ≡ none

  unfoldable pub polls : Settings W → List (World W × Commands W) → Engine W → Engine W
  polls c [] s = s
  polls c ((w, m) ∷ ps) s = polls c ps (process_commands c w m s)

  -- Halted by the guardian, and paused.
  abbrev pub IsStopped : Engine W → Type 0
  IsStopped s = (s.paused ≡ true) × (s.guardian.halted ≡ true)

  pub process_commands-IsStopped :
      (c : Settings W) (w : World W) (m : Commands W) (s : Engine W)
      → HasNoReset (w, m)
      → IsStopped s
      → IsStopped (process_commands c w m s)
  unfolding reset_succeeds
  process_commands-IsStopped c w m s r (p, h) = ground (arith, process_commands-mode c w m s)

  -- A robot that the guardian halted and paused stays so over any sequence of polls, whatever their
  -- commands, until one of them resets the guardian.
  pub polls-IsStopped :
      (c : Settings W) (ps : List (World W × Commands W)) (s : Engine W)
      → All HasNoReset ps
      → IsStopped s
      → IsStopped (polls c ps s)
  unfolding polls
  polls-IsStopped c [] s r h = h
  polls-IsStopped c ((w, m) ∷ ps) s (r, rs) h =
      polls-IsStopped c ps (process_commands c w m s) rs (process_commands-IsStopped c w m s r h)

  -- The poll after next, if no further command arrives.
  abbrev pub two_polls : Settings W → World W → World W → Commands W → Engine W → Engine W
  two_polls c w w' m s = process_commands c w' (clear_commands m) (process_commands c w m s)

  -- A pause and a resume that are queued together pause the robot for one poll only: the resume is
  -- left in the mailbox, and the next poll obeys it.
  pub two_polls_pause_resume :
      (c : Settings W) (w w' : World W) (s : Engine W)
      → s.guardian.halted ≡ false
      → let m = send_command resume (send_command pause no_commands) in
        ((process_commands c w m s).paused ≡ true) × ((two_polls c w w' m s).paused ≡ false)
  unfolding send_command clear_commands no_commands reset_succeeds
  two_polls_pause_resume c w w' s h =
      let m : Commands W = send_command resume (send_command pause no_commands) in
      ground (
        arith,
        process_commands-mode c w m s,
        process_commands-mode c w' (clear_commands m) (process_commands c w m s),
      )
