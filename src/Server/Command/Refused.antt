-- ===== src/Server/Command/Refused.antt =====
-- Requests to live_trading/server.py without the right token.
use scalping.Prelude.{ℕ, ◌≡◌, ◌⊎◌, refl, Bool, false, Option, [], ◌∷◌, ◌==◌, inl, inr}
use scalping.Prelude.Text.{Text, eq_text}
use scalping.Float.{Float}
use scalping.Live.Engine.{Engine}
use scalping.Server.Command.{Post, Mailboxes, command_authorized, command, force_resume}

command_authorized_refused :
    (configured supplied : Text)
    → (configured ≡ []) ⊎ (eq_text supplied configured ≡ false)
    → (command_authorized configured supplied == 200) ≡ false
unfolding command_authorized
command_authorized_refused [] supplied h = refl
command_authorized_refused (c ∷ t) [] h = refl
command_authorized_refused (c ∷ t) (d ∷ u) (inl h) = cc
command_authorized_refused (c ∷ t) (d ∷ u) (inr h) = rw h refl

-- A request whose token is not the configured one, or to a server that has none configured: neither
-- page changes anything, the mailboxes or the engine, and neither answers 200.
pub requests_refused {ℓ} :
    {W : Type ℓ} ⦃f : Float W⦄ (configured : Text) (p : Post W) (b : Mailboxes W) (today : ℕ)
    (reset_baseline : Bool) (engine : Option (Engine W))
    → (configured ≡ []) ⊎ (eq_text p.token configured ≡ false)
    → ((command configured p b).0 ≡ b)
      × (((command configured p b).1 == 200) ≡ false)
      × ((force_resume configured p.token today reset_baseline engine).0 ≡ engine)
      × (((force_resume configured p.token today reset_baseline engine).1 == 200) ≡ false)
unfolding command force_resume
requests_refused configured p b today r engine h =
    let no = command_authorized_refused configured p.token h in
    (rw no refl, rw no no, rw no refl, rw no no)
