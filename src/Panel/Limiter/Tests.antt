-- ===== src/Panel/Limiter/Tests.antt =====
-- Two requests are allowed in ten seconds (telegram_panel/api/middleware/rate_limiter.py).
use scalping.Prelude.{ℕ, ◌≤◌, ◌≡◌, refl, List, [], ◌∷◌, arith}
use scalping.Panel.Limiter.{RateLimiter, evict, check}
use scalping.Panel.Limiter.Window.{Request, within, allowed, allowed_within}

abbrev empty : ℕ → List ℕ
empty id = []

abbrev none_warned : ℕ → ℕ
none_warned id = 0

abbrev limiter : RateLimiter
limiter = record {
  max_requests = 2;
  window_seconds = 10;
  exempt_ids = 1 ∷ [];
  buckets = empty;
  warnings = none_warned;
}

abbrev requests : List Request
requests = (7, 100) ∷ (8, 101) ∷ (7, 102) ∷ (7, 105) ∷ (7, 111) ∷ []

-- The third request in ten seconds is refused; later the first one has left the window.
allowed_run : allowed 7 requests limiter [] ≡ 111 ∷ 102 ∷ 100 ∷ []
unfolding allowed check evict
allowed_run = refl

allowed_within_example : within 100 10 (allowed 7 requests limiter []) ≤ 2
allowed_within_example =
    allowed_within 7 100 requests limiter refl refl
      (ground arith, (ground arith, (ground arith, (ground arith, (ground arith, tt)))))
