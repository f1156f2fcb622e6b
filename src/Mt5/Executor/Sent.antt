-- ===== src/Mt5/Executor/Sent.antt =====
-- What live_trading/mt5/executor.py sends, and when it reports success.
use scalping.Prelude.{
  ℕ, ◌≡◌, refl, Bool, true, false, not, ◌&&◌, ◌||◌, Option, none, some, arith, Bool-cases, inl, inr,
  ◌==◌, if◌then◌else◌,
}
use scalping.Float.{Float, ◌<?◌, ◌≤?◌, ◌≼◌, nought, max_of, min_of}
use scalping.Float.Laws.{IsOrdered, IsRounded}
use scalping.Market.{Direction, is_buy, is_neutral}
use scalping.Mt5.Executor.{
  Answer, raised, answered, TradeResult, Order, read_order, normalise_lot, default_lot, is_price,
  send_order, place_market_order,
}

-- A success is a document without an error that has a ticket and status 200.
abbrev pub IsSuccess : Answer → TradeResult → Type 0
IsSuccess a r =
    r.success ≡ true → (t : ℕ) × (a ≡ answered 200 false (some t)) × (r.position_id ≡ some t)

module _ {ℓ} {W : Type ℓ} ⦃f : Float W⦄ where
  -- Within the limits of the broker, with stop and target on no negative price.
  abbrev pub IsOrder : Direction → Order W → Type 0
  IsOrder d o =
      (is_neutral d ≡ false)
      × (o.operation ≡ (if is_buy d then 0 else 1))
      × (f.dec 1 2 ≼ o.volume)
      × (o.volume ≼ f.dec 50000 2)
      × (nought ≼ o.stoploss)
      × (nought ≼ o.takeprofit)

  abbrev IsWithin : (lo hi : W) → Option W → Type 0
  IsWithin lo hi none = Unit
  IsWithin lo hi (some v) = (lo ≼ v) × (v ≼ hi)

  -- What is sent is an order; nothing is reported as a success that was not sent and acknowledged.
  abbrev pub IsPlaced : Direction → Answer → Option (Order W) × TradeResult → Type 0
  IsPlaced d a (none, r) = r.success ≡ false
  IsPlaced d a (some o, r) = IsOrder d o × IsSuccess a r

module _ {ℓ} {W : Type ℓ} ⦃f : Float W⦄ (laws : IsOrdered W) (rounding : IsRounded W) where
  open laws use {le_of_lt, refl_of_le}

  clamp_lot :
      (lo hi x : W) → lo ≼ hi → (lo ≼ max_of lo (min_of hi x)) × (max_of lo (min_of hi x) ≼ hi)
  unfolding max_of min_of
  clamp_lot lo hi x h =
      ground (arith, refl_of_le lo hi h, le_of_lt x hi, le_of_lt lo x, le_of_lt lo hi)

  normalise_lot-IsWithin :
      (lot lo step hi : W) → lo ≼ hi → IsWithin lo hi (normalise_lot lot lo step hi)
  unfolding normalise_lot
  normalise_lot-IsWithin lot lo step hi h =
      elim (Bool-cases (not (f.is_finite lot) || (lot ≤? nought))) [
        | inl e ↦ rw e tt
        | inr e ↦ rw e (elim (Bool-cases ((step ≤? nought) || (lo ≤? nought) || (hi <? lo))) [
          | inl g ↦ rw g tt
          | inr g ↦ rw g (clamp_lot lo hi _ h)
        ])
      ]

  round_price : (x : W) → is_price x ≡ true → nought ≼ f.round x 2
  round_price x h =
      let up : f.round nought 2 ≼ f.round x 2 =
        rounding.round_mono nought x 2 (le_of_lt nought x (ground arith)) in
      rw (rounding.round-dec 0 0 2 (omega arith)) at up

  read_order-IsSuccess : (a : Answer) → IsSuccess a (read_order a)
  unfolding read_order
  read_order-IsSuccess raised h = cc
  read_order-IsSuccess (answered s true t) h = cc
  read_order-IsSuccess (answered s false none) h = cc
  read_order-IsSuccess (answered s false (some t)) h = elim (Bool-cases (s == 200)) [
    | inl e ↦ let same : s ≡ 200 = ground arith in (t, rw same refl, rw e refl)
    | inr e ↦ cc
  ]

  send_order-IsPlaced :
      (d : Direction) (lot : Option W) (sl tp : W) (a : Answer)
      → is_neutral d ≡ false
      → IsWithin (f.dec 1 2) (f.dec 50000 2) lot
      → IsPlaced d a (send_order d lot sl tp a)
  unfolding send_order
  send_order-IsPlaced d none sl tp a n w = refl
  send_order-IsPlaced d (some lot) sl tp a n (low, high) =
      elim (Bool-cases (not (is_price sl && is_price tp))) [
        | inl e ↦ rw e refl
        | inr e ↦ rw e (
          (n, refl, low, high, round_price sl (ground arith), round_price tp (ground arith)),
          read_order-IsSuccess a,
        )
      ]

  -- For ordered and correctly rounded floats: an order that is sent has a direction, a volume from 0.01 to 500, and neither stop nor target below zero; and the
  -- placing is a success only if an order was sent and its ticket came back with status 200.
  pub place_market_order-IsPlaced :
      (connected : Bool) (d : Direction) (lot sl tp : W) (a : Answer)
      → IsPlaced d a (place_market_order connected d lot sl tp a)
  unfolding place_market_order
  place_market_order-IsPlaced false d lot sl tp a = refl
  place_market_order-IsPlaced true d lot sl tp a = elim (Bool-cases (is_neutral d)) [
    | inl e ↦ rw e refl
    | inr e ↦ rw e (
        send_order-IsPlaced d (default_lot lot) sl tp a e (
          normalise_lot-IsWithin lot (f.dec 1 2) (f.dec 1 2) (f.dec 50000 2)
            (rounding.dec_mono 1 50000 2 (omega arith))))
  ]
