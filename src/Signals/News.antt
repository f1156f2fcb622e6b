-- ===== src/Signals/News.antt =====
-- live_trading/signals/news_filter.py: whether a high-impact event is near. Times are seconds since
-- 1970; what the feed answers is an argument, empty for any error.
use scalping.Prelude.{
  ℕ, ◌+◌, ◌*◌, ◌≡◌, refl, Bool, true, false, ◌&&◌, Option, none, some, List, [], ◌∷◌, any, leb,
  arith, Bool-cases, inl, inr, if◌then◌else◌,
}
mod Tests

-- What the code reads of an event: its country, impact and title as tests, and its time, if it parses.
pub record NewsEvent : Type 0 where
  pub is_usd : Bool
  pub is_high : Bool
  pub has_keyword : Bool
  pub time : Option ℕ

-- `_cache_events` and `_cache_expires`.
pub record Cache : Type 0 where
  pub events : List NewsEvent
  pub expires : Option ℕ

-- NEWS_BLOCK_BEFORE_MIN and NEWS_BLOCK_AFTER_MIN, in seconds.
pub record Windows : Type 0 where
  pub block_before : ℕ
  pub block_after : ℕ

abbrev is_due : (now : ℕ) → Option ℕ → Bool
is_due now none = true
is_due now (some t) = leb t now

-- `_CACHE_TTL_S` is 3600. Only a calendar that is not empty replaces the cache.
abbrev refreshed : (now : ℕ) → (fetched : List NewsEvent) → Cache → Cache
refreshed now [] c = c
refreshed now (e ∷ es) c = record { events = e ∷ es; expires = some (now + 3600) }

unfoldable pub get_events : (now : ℕ) → (fetched : List NewsEvent) → Cache → Cache
get_events now fetched c = if is_due now c.expires then refreshed now fetched c else c

abbrev pub is_high_impact_usd : NewsEvent → Bool
is_high_impact_usd e = e.is_usd && e.is_high && e.has_keyword

-- `-after <= time - now <= before`.
abbrev pub in_window : Windows → (now : ℕ) → Option ℕ → Bool
in_window w now none = false
in_window w now (some t) = leb now (t + w.block_after) && leb t (now + w.block_before)

-- The first event that blocks.
first_block : Windows → (now : ℕ) → List NewsEvent → Option NewsEvent
first_block w now [] = none
first_block w now (e ∷ es) =
    let rest = first_block w now es in
    if is_high_impact_usd e && in_window w now e.time then some e else rest

abbrev pub is_blocked : Option NewsEvent → Bool
is_blocked none = false
is_blocked (some e) = true

-- The new cache, and the event that blocks, if any.
pub check_news_filter :
    Windows → (now : ℕ) → (fetched : List NewsEvent) → Cache → Cache × Option NewsEvent
unfolding first_block
check_news_filter w now fetched c =
    let c' = get_events now fetched c in (c', first_block w now c'.events)

first_block-any :
    (w : Windows) (now : ℕ) (es : List NewsEvent)
    → is_blocked (first_block w now es)
      ≡ any (λ e. is_high_impact_usd e && in_window w now e.time) es
unfolding first_block
first_block-any w now [] = refl
first_block-any w now (e ∷ es) =
    elim (Bool-cases (is_high_impact_usd e && in_window w now e.time)) [
      | inl h ↦ rw h refl
      | inr h ↦ rw h (first_block-any w now es)
    ]

-- When the feed answers nothing, whatever the cache and the time are, the cache stays as it is, and
-- trading is blocked exactly if the cached calendar has a high-impact USD event in its window.
pub check_news_filter_failed :
    (w : Windows) (now : ℕ) (c : Cache)
    → let (c', block) = check_news_filter w now [] c in
      (c' ≡ c)
      × (is_blocked block ≡ any (λ e. is_high_impact_usd e && in_window w now e.time) c.events)
unfolding check_news_filter get_events
check_news_filter_failed w now c = elim (Bool-cases (is_due now c.expires)) [
  | inl e ↦ (rw e refl, rw e (first_block-any w now c.events))
  | inr e ↦ (rw e refl, rw e (first_block-any w now c.events))
]
