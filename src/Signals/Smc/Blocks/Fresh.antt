-- ===== src/Signals/Smc/Blocks/Fresh.antt =====
-- The active order blocks of live_trading/signals/smc_engine.py.
use scalping.Prelude.{
  last_start, ℕ, zero, suc, ◌+◌, ◌≤◌, ◌<◌, min, Bool, true, false, ◌≡◌, refl, Option, none, some,
  List, [], ◌∷◌, ◌++◌, All, All-append, any, drop, length, ◌==◌, if◌then◌else◌, arith, Bool-cases,
  inl, inr,
}
use scalping.Float.{Float}
use scalping.Market.{Candle, trend_of}
use scalping.Signals.Decision.{Event}
use scalping.Signals.Smc.{SmcConfig, get_elem?, member}
use scalping.Signals.Smc.Blocks.{
  Block, Found, search_back, is_opposite, touches, first_touch, block_of, keep_block, add_block,
  blocks_of, active, detect_order_blocks,
}

module _ {ℓ} {W : Type ℓ} where
  -- How many of the blocks stand on bar k.
  abbrev pub blocks_at : (k : ℕ) → List (Block W) → ℕ
  blocks_at k [] = 0
  blocks_at k (b ∷ bs) = (if b.bar_index == k then 1 else 0) + blocks_at k bs

  blocks_at-append :
      (k : ℕ) (xs ys : List (Block W)) → blocks_at k (xs ++ ys) ≡ blocks_at k xs + blocks_at k ys
  blocks_at-append k [] ys = omega arith
  blocks_at-append k (x ∷ xs) ys = omega (arith, blocks_at-append k xs ys)

  blocks_at-drop : (k n : ℕ) (xs : List (Block W)) → blocks_at k (drop n xs) ≤ blocks_at k xs
  blocks_at-drop k zero xs = omega arith
  blocks_at-drop k (suc n) [] = omega arith
  blocks_at-drop k (suc n) (x ∷ xs) = omega (arith, blocks_at-drop k n xs)

  search_back_found :
      (passes : Candle W → Bool) (cs : List (Candle W)) (k n : ℕ) {j : ℕ} {c : Candle W}
      → search_back passes cs k n ≡ some (j, c)
      → (j < k) × (k ≤ j + n)
  unfolding search_back
  search_back_found passes cs k zero h = cc
  search_back_found passes cs zero (suc n) h = cc
  search_back_found passes cs (suc k) (suc n) {j} {c} h =
      ground (arith, search_back_found passes cs k n {j = j} {c = c})

module _ {ℓ} {W : Type ℓ} ⦃f : Float W⦄ where
  blocks_at-active : (k : ℕ) (xs : List (Block W)) → blocks_at k (active xs) ≤ blocks_at k xs
  blocks_at-active k [] = omega arith
  blocks_at-active k (x ∷ xs) = ground (arith, blocks_at-active k xs)

  -- Every block stands on a bar that is used, and no two on one bar.
  abbrev IsUnique : (k : ℕ) → Found W → Type 0
  IsUnique k s = blocks_at k s.order_blocks ≤ (if member k s.used_ob_idx then 1 else 0)

  keep_block-IsUnique :
      (k : ℕ) (ob : Block W) (t : Option ℕ) (s : Found W)
      → member ob.bar_index s.used_ob_idx ≡ false
      → IsUnique k s
      → IsUnique k (keep_block ob t s)
  unfolding keep_block
  keep_block-IsUnique k ob none s new h =
      ground (arith, blocks_at-append k s.order_blocks (ob ∷ []))
  keep_block-IsUnique k ob (some j) s new h =
      ground (arith, blocks_at-append k s.order_blocks (record ob { mitigated = true } ∷ []))

  add_block-IsUnique :
      (k : ℕ) (cs : List (Candle W)) (bos : Event W) (r : Option (ℕ × Candle W)) (s : Found W)
      → IsUnique k s
      → IsUnique k (add_block cs bos r s)
  unfolding add_block
  add_block-IsUnique k cs bos none s h = h
  add_block-IsUnique k cs bos (some (j, raw)) s h =
      let ob = block_of bos.type j raw in
      elim (Bool-cases (member j s.used_ob_idx)) [
        | inl e ↦ rw e h
        | inr e ↦ rw e (
            keep_block-IsUnique k ob
              (first_touch ob (bos.bar_index + 1) (drop (bos.bar_index + 1) cs)) s e h)
      ]

  blocks_of-IsUnique :
      (k : ℕ) (cs : List (Candle W)) (cfg : SmcConfig W) (es : List (Event W)) (s : Found W)
      → IsUnique k s
      → IsUnique k (blocks_of cs cfg es s)
  unfolding blocks_of
  blocks_of-IsUnique k cs cfg [] s h = h
  blocks_of-IsUnique k cs cfg (e ∷ es) s h =
      let r = search_back (is_opposite cfg e.type) cs e.bar_index (min 8 e.bar_index) in
      blocks_of-IsUnique k cs cfg es (add_block cs e r s) (add_block-IsUnique k cs e r s h)

  first_touch-none :
      (ob : Block W) (j : ℕ) (cs : List (Candle W))
      → first_touch ob j cs ≡ none
      → any (touches ob) cs ≡ false
  unfolding first_touch
  first_touch-none ob j [] h = refl
  first_touch-none ob j (c ∷ cs) h = ground (arith, first_touch-none ob (j + 1) cs)

  -- One of the events made the block: it stands in the eight bars before, has the event's side, and no
  -- candle behind the event touches it.
  abbrev pub IsFresh : List (Candle W) → List (Event W) → Block W → Type ℓ
  IsFresh cs es b =
      (k : ℕ) × (e : Event W) × (get_elem? es k ≡ some e)
      × (b.bar_index < e.bar_index)
      × (e.bar_index ≤ b.bar_index + 8)
      × (b.type ≡ trend_of e.type)
      × (any (touches b) (drop (e.bar_index + 1) cs) ≡ false)

  abbrev AllFresh : List (Candle W) → List (Event W) → Found W → Type ℓ
  AllFresh cs es s = All (λ b. b.mitigated ≡ false → IsFresh cs es b) s.order_blocks

  keep_block-AllFresh :
      (cs : List (Candle W)) (es : List (Event W)) (ob : Block W) (t : Option ℕ) (s : Found W)
      → (t ≡ none → IsFresh cs es ob)
      → AllFresh cs es s
      → AllFresh cs es (keep_block ob t s)
  unfolding keep_block
  keep_block-AllFresh cs es ob none s fresh h =
      All-append (λ b. b.mitigated ≡ false → IsFresh cs es b) s.order_blocks (ob ∷ []) h
        (λ m. fresh refl, tt)
  keep_block-AllFresh cs es ob (some j) s fresh h =
      All-append (λ b. b.mitigated ≡ false → IsFresh cs es b) s.order_blocks
        (record ob { mitigated = true } ∷ []) h (λ m. absurd (cc), tt)

  add_block-AllFresh :
      (cs : List (Candle W)) (es : List (Event W)) (k : ℕ) (e : Event W) (r : Option (ℕ × Candle W))
      → (s : Found W) → get_elem? es k ≡ some e
      → ((j : ℕ) (c : Candle W) → r ≡ some (j, c) → (j < e.bar_index) × (e.bar_index ≤ j + 8))
      → AllFresh cs es s
      → AllFresh cs es (add_block cs e r s)
  unfolding add_block
  add_block-AllFresh cs es k e none s at near h = h
  add_block-AllFresh cs es k e (some (j, raw)) s at near h =
      let ob = block_of e.type j raw in
      let later = drop (e.bar_index + 1) cs in
      elim (Bool-cases (member j s.used_ob_idx)) [
        | inl u ↦ rw u h
        | inr u ↦ rw u (
            keep_block-AllFresh cs es ob (first_touch ob (e.bar_index + 1) later) s
              (λ t. (
                k,
                e,
                at,
                (near j raw refl).0,
                (near j raw refl).1,
                refl,
                first_touch-none ob (e.bar_index + 1) later t,
              ))
              h)
      ]

  blocks_of-AllFresh :
      (cs : List (Candle W)) (cfg : SmcConfig W) (all_events es : List (Event W))
      → ((k : ℕ) (e : Event W)
          → get_elem? es k ≡ some e
          → (j : ℕ) × (get_elem? all_events j ≡ some e))
      → (s : Found W) → AllFresh cs all_events s
      → AllFresh cs all_events (blocks_of cs cfg es s)
  unfolding blocks_of
  blocks_of-AllFresh cs cfg all_events [] within s h = h
  blocks_of-AllFresh cs cfg all_events (e ∷ es) within s h =
      let passes = is_opposite cfg e.type in
      let n = min 8 e.bar_index in
      let r = search_back passes cs e.bar_index n in
      let (k, at) = within 0 e refl in
      let near : (j : ℕ) (c : Candle W)
          → r ≡ some (j, c)
          → (j < e.bar_index) × (e.bar_index ≤ j + 8) =
        λ j c q. omega (arith, search_back_found passes cs e.bar_index n q) in
      blocks_of-AllFresh cs cfg all_events es (λ i d. within (suc i) d) (add_block cs e r s)
        (add_block-AllFresh cs all_events k e r s at near h)

  All-unless :
      (P : Block W → Type ℓ) (m : Bool) (b : Block W) (bs : List (Block W))
      → (m ≡ false → P b)
      → All P bs
      → All P (if m then bs else b ∷ bs)
  All-unless P true b bs h hs = hs
  All-unless P false b bs h hs = (h refl, hs)

  All-active :
      (P : Block W → Type ℓ) (bs : List (Block W))
      → All (λ b. b.mitigated ≡ false → P b) bs
      → All P (active bs)
  All-active P [] h = tt
  All-active P (b ∷ bs) (h, hs) = All-unless P b.mitigated b (active bs) h (All-active P bs hs)

  All-drop : (P : Block W → Type ℓ) (n : ℕ) (bs : List (Block W)) → All P bs → All P (drop n bs)
  All-drop P zero bs h = h
  All-drop P (suc n) [] h = tt
  All-drop P (suc n) (b ∷ bs) (h, hs) = All-drop P n bs hs

  -- Every active order block stands in the eight bars before a break of its side, and no candle after
  -- that break touches it; no bar has two active blocks.
  pub detect_order_blocks-IsFresh :
      (cs : List (Candle W)) (es : List (Event W)) (cfg : SmcConfig W)
      → let r = detect_order_blocks cs es cfg in
        All (IsFresh cs es) r.0 × ((k : ℕ) → blocks_at k r.0 ≤ 1)
  unfolding detect_order_blocks
  detect_order_blocks-IsFresh cs es cfg =
      let start : Found W = record {
        order_blocks = [];
        mitigation_blocks = [];
        used_ob_idx = [];
      } in
      let bs = (blocks_of cs cfg es start).order_blocks in
      let n = last_start cfg.max_order_blocks (length (active bs)) in
      (
        All-drop (IsFresh cs es) n (active bs) (
            All-active (IsFresh cs es) bs
              (blocks_of-AllFresh cs cfg es es (λ k e h. (k, h)) start tt)),
        λ k. ground (
          arith,
          blocks_at-drop k n (active bs),
          blocks_at-active k bs,
          blocks_of-IsUnique k cs cfg es start (omega arith),
        ),
      )
