-- ===== src/Panel/Limiter.antt =====
-- telegram_panel/api/middleware/rate_limiter.py: `RateLimiter`. An instant is a number; a user without
-- a bucket has an empty one.
use scalping.Prelude.{
  ℕ, suc, ◌+◌, ◌*◌, Bool, true, false, ◌||◌, Option, none, some, List, [], ◌∷◌, ◌++◌, length, any,
  get_last?, ltb, leb, ◌==◌, if◌then◌else◌,
}
pub mod Window
mod Tests

pub record RateLimiter : Type 0 where
  pub max_requests : ℕ
  pub window_seconds : ℕ
  pub exempt_ids : List ℕ
  -- The instants of the requests of a user that were allowed, the oldest first.
  pub buckets : ℕ → List ℕ
  pub warnings : ℕ → ℕ

abbrev pub is_exempt : ℕ → List ℕ → Bool
is_exempt id ids = any (λ x. x == id) ids

-- Entries older than the window leave at the front, until one is recent.
pub evict : (now window : ℕ) → List ℕ → List ℕ
evict now window [] = []
evict now window (t ∷ ts) =
    let rest = evict now window ts in if ltb (t + window) now then rest else t ∷ ts

abbrev pub set_at {ℓ} : {A : Type ℓ} → ℕ → A → (ℕ → A) → ℕ → A
set_at id a table id' = if id == id' then a else table id'

pub check : (telegram_id now : ℕ) → RateLimiter → RateLimiter × Bool
unfolding evict
check id now s =
    let bucket = evict now s.window_seconds (s.buckets id) in
    if is_exempt id s.exempt_ids
    then (s, true)
    else if leb s.max_requests (length bucket)
    then (
      record s {
        buckets = set_at id bucket s.buckets;
        warnings = set_at id (suc (s.warnings id)) s.warnings;
      },
      false,
    )
    else (record s { buckets = set_at id (bucket ++ (now ∷ [])) s.buckets }, true)

pub reset : ℕ → RateLimiter → RateLimiter
reset id s = record s { buckets = set_at id [] s.buckets; warnings = set_at id 0 s.warnings }

-- A bucket whose last entry is older than two windows is removed.
is_stale : (now window : ℕ) → Option ℕ → Bool
is_stale now window none = true
is_stale now window (some t) = ltb (t + window * 2) now

pub purge_stale : ℕ → RateLimiter → RateLimiter
unfolding is_stale
purge_stale now s = record s {
  buckets =
      λ id. if is_stale now s.window_seconds (get_last? (s.buckets id)) then [] else s.buckets id;
  warnings =
      λ id. if is_stale now s.window_seconds (get_last? (s.buckets id)) then 0 else s.warnings id;
}
