-- ===== src/Signals/News/Tests.antt =====
-- Runs of the news filter (live_trading/signals/news_filter.py).
use scalping.Prelude.{◌≡◌, refl, true, some, [], ◌∷◌}
use scalping.Signals.News.{NewsEvent, Cache, Windows, get_events}

abbrev windows : Windows
windows = record { block_before = 900; block_after = 1800 }

abbrev payrolls : NewsEvent
payrolls = record { is_usd = true; is_high = true; has_keyword = true; time = some 10000 }

abbrev stale : Cache
stale = record { events = payrolls ∷ []; expires = some 9000 }

refresh_at_expiry : (get_events 9000 (payrolls ∷ []) stale).expires ≡ some 12600
unfolding get_events
refresh_at_expiry = refl
