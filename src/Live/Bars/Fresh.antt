-- ===== src/Live/Bars/Fresh.antt =====
-- No bar is handled twice (live_trading/trading/live_loop.py).
use scalping.Prelude.{
  ℕ, suc, ◌+◌, ◌-◌, ◌*◌, ◌^◌, ◌≤◌, ◌<◌, ◌≡◌, refl, min, Bool, true, ◌&&◌, Option, none, some, List,
  [], ◌∷◌, All, arith,
}
use scalping.Live.Bars.{is_newer, check_timeframe, backoff}

-- One poll of a timeframe: the instant and the answer.
abbrev pub Poll : Type 0
Poll = ℕ × Option ℕ

-- The answer is at most two hours old, or missing.
abbrev pub IsFresh : Poll → Type 0
IsFresh (now, none) = Unit
IsFresh (now, some t) = now ≤ t + 7200

-- The bars that a sequence of polls hands to `_on_new_bar`.
unfoldable pub handled : List Poll → Option ℕ → List ℕ
handled [] prev = []
handled ((now, answer) ∷ ps) prev =
    let one = check_timeframe now answer prev in
    let rest = handled ps one.0 in elim one.1 [ none ↦ rest | some t ↦ t ∷ rest ]

-- Each time is later than the one before.
abbrev pub increasing : Option ℕ → List ℕ → Bool
increasing prev [] = true
increasing prev (t ∷ ts) = is_newer prev t && increasing (some t) ts

-- As long as no answer is stale, the bars of a timeframe that are handled have increasing times: none
-- is handled twice.
pub increasing-handled :
    (ps : List Poll) (prev : Option ℕ) → All IsFresh ps → increasing prev (handled ps prev) ≡ true
unfolding handled check_timeframe
increasing-handled [] prev f = refl
increasing-handled ((now, none) ∷ ps) prev (f, fs) = increasing-handled ps prev fs
increasing-handled ((now, some t) ∷ ps) prev (f, fs) =
    ground (arith, increasing-handled ps prev fs, increasing-handled ps (some t) fs)

-- A stale answer makes the loop forget the last bar: when the bridge repeats that bar afterwards, it
-- is handled a second time.
pub handled_stale :
    (now t old : ℕ)
    → old + 7200 < now
    → now ≤ t + 7200
    → handled ((now, some t) ∷ (now, some old) ∷ (now, some t) ∷ []) none ≡ t ∷ t ∷ []
unfolding handled check_timeframe
handled_stale now t old s f = ground arith

doubled :
    (p cap : ℕ)
    → (min p cap ≤ min (2 * p) cap) × (min (2 * p) cap ≤ 2 * min p cap) × (min p cap ≤ cap)
doubled p cap = ground arith

mul-pow : (base n : ℕ) → base * 2 ^ suc n ≡ 2 * (base * 2 ^ n)
mul-pow base n = grind arith

pred-suc : (n : ℕ) → suc n - 1 ≡ n
pred-suc n = omega arith

-- The delay of the first attempt is the base; each later one is at least as long as the one before, at
-- most twice as long, and never above the cap.
pub backoff_bounds :
    (base cap n : ℕ)
    → base ≤ cap
    → (backoff base cap 1 ≡ base)
      × (backoff base cap (suc n) ≤ backoff base cap (suc (suc n)))
      × (backoff base cap (suc (suc n)) ≤ 2 * backoff base cap (suc n))
      × (backoff base cap (suc n) ≤ cap)
unfolding backoff
backoff_bounds base cap n h =
    rw (pred-suc n, pred-suc (suc n), mul-pow base n)
      (let (a, b, c) = doubled (base * 2 ^ n) cap in (omega arith, a, b, c))
