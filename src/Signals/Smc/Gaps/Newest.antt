-- ===== src/Signals/Smc/Gaps/Newest.antt =====
-- Gaps of the last three candles are never reported (live_trading/signals/smc_engine.py).
use scalping.Prelude.{
  last_start, ℕ, zero, suc, ◌+◌, ◌<◌, Bool, true, false, ◌&&◌, ◌≡◌, refl, Option, none, some, List,
  [], ◌∷◌, ◌++◌, All, All-append, drop, length, get_last?, if◌then◌else◌, arith,
}
use scalping.Float.{Float, ◌<?◌, ◌⊖◌, ◌≼◌}
use scalping.Float.Laws.{IsOrdered}
use scalping.Market.{Candle, bullish, bearish}
use scalping.Signals.Smc.{SmcConfig}
use scalping.Signals.Smc.Gaps.{Fvg, gap_of, gaps_at, gaps_from, open_gaps, all_gaps, detect_fvgs}

module _ {ℓ} {W : Type ℓ} ⦃f : Float W⦄ (laws : IsOrdered W) (cfg : SmcConfig W) where
  open laws use {le_of_lt, refl_of_le, le_trans}

  -- An open gap lies before bar n.
  abbrev IsOld : (n : ℕ) → Fvg W → Type 0
  IsOld n g = g.filled ≡ false → suc g.bar_index < n

  All-two :
      (P : Fvg W → Type 0) (t u : Bool) (g k : Fvg W)
      → (t ≡ true → P g)
      → (u ≡ true → P k)
      → All P ((if t then g ∷ [] else []) ++ (if u then k ∷ [] else []))
  All-two P true true g k h l = (h refl, (l refl, tt))
  All-two P true false g k h l = (h refl, tt)
  All-two P false true g k h l = (l refl, tt)
  All-two P false false g k h l = tt

  All-gaps_at :
      (P : Fvg W → Type 0) (i : ℕ) (c1 c3 last : Candle W) (later : List (Candle W))
      → ((c1.high <? c3.low) ≡ true → P (gap_of bullish c1.high c3.low i later last))
      → ((c3.high <? c1.low) ≡ true → P (gap_of bearish c3.high c1.low i later last))
      → All P (gaps_at cfg i c1 c3 later last)
  unfolding gaps_at
  All-gaps_at P i c1 c3 last later up down =
      let t = f.le cfg.fvg_min_size (c3.low ⊖ c1.high) in
      let u = f.le cfg.fvg_min_size (c1.low ⊖ c3.high) in
      All-two P ((c1.high <? c3.low) && t) ((c3.high <? c1.low) && u)
        (gap_of bullish c1.high c3.low i later last) (gap_of bearish c3.high c1.low i later last)
        (λ m. up (ground arith)) (λ m. down (ground arith))

  -- The third candle reaches the gap that it makes.
  gaps_at_newest :
      (i n : ℕ) (c1 c3 : Candle W) → c3.low ≼ c3.high → All (IsOld n) (gaps_at cfg i c1 c3 [] c3)
  gaps_at_newest i n c1 c3 h =
      let (low, high) = refl_of_le c3.low c3.high h in
      All-gaps_at (IsOld n) i c1 c3 c3 []
        (λ m t. ground (arith, le_of_lt c1.high c3.low, le_trans c1.high c3.low c3.high))
        (λ m t. ground (arith, le_of_lt c3.high c1.low, le_trans c3.low c3.high c1.low))

  gaps_from-IsOld :
      (n i : ℕ) (cs : List (Candle W)) (last : Candle W)
      → get_last? cs ≡ some last
      → i + length cs ≡ n + 2
      → All (λ c. c.low ≼ c.high) cs
      → All (IsOld n) (gaps_from cfg i cs last)
  unfolding gaps_from
  gaps_from-IsOld n i [] last e l h = tt
  gaps_from-IsOld n i (c1 ∷ []) last e l h = tt
  gaps_from-IsOld n i (c1 ∷ c2 ∷ []) last e l h = tt
  gaps_from-IsOld n i (c1 ∷ c2 ∷ c3 ∷ []) last e l h =
      let same : c3 ≡ last = cc in
      All-append (IsOld n) (gaps_at cfg i c1 c3 [] last) []
        (rw (← same) (gaps_at_newest i n c1 c3 h.1.1.0)) tt
  gaps_from-IsOld n i (c1 ∷ c2 ∷ c3 ∷ c4 ∷ cs) last e l (h, hs) =
      All-append (IsOld n) (gaps_at cfg i c1 c3 (c4 ∷ cs) last)
        (gaps_from cfg (suc i) (c2 ∷ c3 ∷ c4 ∷ cs) last)
        (All-gaps_at (IsOld n) i c1 c3 last (c4 ∷ cs) (λ m t. omega arith) (λ m t. omega arith))
        (gaps_from-IsOld n (suc i) (c2 ∷ c3 ∷ c4 ∷ cs) last e (omega arith) hs)

  All-unless :
      (P : Fvg W → Type 0) (m : Bool) (g : Fvg W) (gs : List (Fvg W))
      → (m ≡ false → P g)
      → All P gs
      → All P (if m then gs else g ∷ gs)
  All-unless P true g gs h hs = hs
  All-unless P false g gs h hs = (h refl, hs)

  All-open_gaps :
      (n : ℕ) (gs : List (Fvg W))
      → All (IsOld n) gs
      → All (λ g. g.bar_index + 2 < suc n) (open_gaps gs)
  All-open_gaps n [] h = tt
  All-open_gaps n (g ∷ gs) (h, hs) =
      All-unless (λ d. d.bar_index + 2 < suc n) g.filled g (open_gaps gs) (λ m. omega (arith, h m))
        (All-open_gaps n gs hs)

  all_gaps-IsOld :
      (n : ℕ) (cs : List (Candle W)) (last : Option (Candle W))
      → get_last? cs ≡ last
      → length cs ≡ suc n
      → All (λ c. c.low ≼ c.high) cs
      → All (IsOld n) (all_gaps cfg cs last)
  unfolding all_gaps
  all_gaps-IsOld n cs none e l h = tt
  all_gaps-IsOld n cs (some last) e l h = gaps_from-IsOld n 1 cs last e (omega arith) h

  All-drop :
      (n k : ℕ) (gs : List (Fvg W))
      → All (λ g. g.bar_index + 2 < n) gs
      → All (λ g. g.bar_index + 2 < n) (drop k gs)
  All-drop n zero gs h = h
  All-drop n (suc k) [] h = tt
  All-drop n (suc k) (g ∷ gs) (h, hs) = All-drop n k gs hs

  -- For candles whose low is not above their high: a gap that is reported lies before the last three
  -- candles, so a gap that the last three candles have just made is never reported.
  pub detect_fvgs_newest :
      (cs : List (Candle W))
      → All (λ c. c.low ≼ c.high) cs
      → All (λ g. g.bar_index + 2 < length cs) (detect_fvgs cs cfg)
  unfolding detect_fvgs
  detect_fvgs_newest [] h = All-drop 0 (last_start cfg.max_fvgs 0) [] tt
  detect_fvgs_newest (c ∷ cs) h =
      let all = all_gaps cfg (c ∷ cs) (get_last? (c ∷ cs)) in
      All-drop (length (c ∷ cs)) (last_start cfg.max_fvgs (length (open_gaps all))) (open_gaps all)
        (All-open_gaps (length cs) all
          (all_gaps-IsOld (length cs) (c ∷ cs) (get_last? (c ∷ cs)) refl refl h))
