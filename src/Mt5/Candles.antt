-- ===== src/Mt5/Candles.antt =====
-- live_trading/mt5/connector.py: the candles of `fetch_candles`, from the rows that the bridge answers.
-- Times are seconds since 1970; a row whose time or prices cannot be read is `none`.
use scalping.Prelude.{
  ℕ, ◌+◌, ◌-◌, ◌*◌, ◌/◌, max, Bool, true, false, Option, none, some, List, [], ◌∷◌, but_last,
  last_n, length, leb, ltb, ◌==◌, if◌then◌else◌,
}
use scalping.Signals.Smc.{member}
pub mod Ordered
mod Tests

-- A candle with the time at which it opens.
pub record Bar {ℓ} (C : Type ℓ) : Type ℓ where
  pub time : ℕ
  pub candle : C

-- `_h1_request_minutes`; the division rounds up.
h1_request_minutes : (count : ℕ) → ℕ
h1_request_minutes count = max (count + 10) ((count * 7 + 4) / 5) * 60 + 3 * 24 * 60

pub request_minutes : (tf_min count : ℕ) → ℕ
unfolding h1_request_minutes
request_minutes tf count = if tf == 60 then h1_request_minutes count else tf * (count + 5)

module _ {ℓ} {C : Type ℓ} where
  readable : List (Option (Bar C)) → List (Bar C)
  readable [] = []
  readable (none ∷ rs) = readable rs
  readable (some b ∷ rs) = b ∷ readable rs

  -- `sorted` by time, which keeps the order of equal times.
  insert : Bar C → List (Bar C) → List (Bar C)
  insert b [] = b ∷ []
  insert b (c ∷ cs) = let rest = insert b cs in if ltb b.time c.time then b ∷ c ∷ cs else c ∷ rest

  sort_onto : List (Bar C) → (sorted : List (Bar C)) → List (Bar C)
  unfolding insert
  sort_onto [] ss = ss
  sort_onto (b ∷ bs) ss = sort_onto bs (insert b ss)

  -- The first candle of each time.
  once : (seen_times : List ℕ) → List (Bar C) → List (Bar C)
  once seen [] = []
  once seen (b ∷ bs) =
      let old = member b.time seen in
      let rest = once (if old then seen else b.time ∷ seen) bs in if old then rest else b ∷ rest

  abbrev is_complete : (now : ℕ) → Bar C → Bool
  is_complete now b = leb (b.time + 3600) (now - 2)

  complete : (now : ℕ) → List (Bar C) → List (Bar C)
  complete now [] = []
  complete now (b ∷ bs) = let rest = complete now bs in if is_complete now b then b ∷ rest else rest

  -- Hours are kept if they are over two seconds ago; of other timeframes the last candle is dropped.
  pub completed_candles : List (Bar C) → (tf_min now : ℕ) → List (Bar C)
  unfolding sort_onto once complete
  completed_candles bars tf now =
      let ordered = once [] (sort_onto bars []) in
      if tf == 60 then complete now ordered else but_last ordered

  -- What `fetch_candles` makes of a list of rows: the last `count` completed candles.
  pub candles_of_rows : List (Option (Bar C)) → (tf_min count now : ℕ) → List (Bar C)
  unfolding readable
  candles_of_rows rows tf count now =
      let candles = completed_candles (readable rows) tf now in
      if ltb count (length candles) then last_n count candles else candles
