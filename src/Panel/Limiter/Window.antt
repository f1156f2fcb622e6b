-- ===== src/Panel/Limiter/Window.antt =====
-- The bound of the sliding window (telegram_panel/api/middleware/rate_limiter.py).
use scalping.Prelude.{
  ℕ, suc, ◌+◌, ◌≤◌, ◌≡◌, refl, ◌∙◌, true, false, ◌&&◌, List, [], ◌∷◌, ◌++◌, length, leb, ◌==◌,
  if◌then◌else◌, arith, Bool-cases, inl, inr,
}
use scalping.Panel.Limiter.{RateLimiter, is_exempt, evict, check}

-- A request: who, and when.
abbrev pub Request : Type 0
Request = ℕ × ℕ

-- How many of the instants lie in the window that starts at `t`.
abbrev pub within : (t window : ℕ) → List ℕ → ℕ
within t w [] = 0
within t w (x ∷ xs) = if leb t x && leb x (t + w) then suc (within t w xs) else within t w xs

-- How many of them are not older than the window at `now`.
abbrev recent : (now window : ℕ) → List ℕ → ℕ
recent n w [] = 0
recent n w (x ∷ xs) = if leb n (x + w) then suc (recent n w xs) else recent n w xs

-- No request comes before the one before it.
abbrev pub IsAscending : ℕ → List Request → Type 0
IsAscending last [] = Unit
IsAscending last ((id, now) ∷ rs) = (last ≤ now) × IsAscending now rs

recent-append : (n w : ℕ) (xs ys : List ℕ) → recent n w (xs ++ ys) ≡ recent n w xs + recent n w ys
recent-append n w [] ys = omega arith
recent-append n w (x ∷ xs) ys = ground (arith, recent-append n w xs ys)

recent-length : (n w : ℕ) (xs : List ℕ) → recent n w xs ≤ length xs
recent-length n w [] = omega arith
recent-length n w (x ∷ xs) = ground (arith, recent-length n w xs)

recent-evict : (n now w : ℕ) (xs : List ℕ) → now ≤ n → recent n w (evict now w xs) ≡ recent n w xs
unfolding evict
recent-evict n now w [] h = refl
recent-evict n now w (x ∷ xs) h = ground (arith, recent-evict n now w xs h)

within-recent : (t now w : ℕ) (xs : List ℕ) → now ≤ t + w → within t w xs ≤ recent now w xs
within-recent t now w [] h = omega arith
within-recent t now w (x ∷ xs) h = ground (arith, within-recent t now w xs h)

-- The instants at which a user's requests were allowed, the latest first.
unfoldable pub allowed : (user : ℕ) → List Request → RateLimiter → List ℕ → List ℕ
allowed user [] s log = log
allowed user ((id, now) ∷ rs) s log =
    let r = check id now s in allowed user rs r.0 (if (id == user) && r.1 then now ∷ log else log)

-- The log of a user keeps to the limit, and what is recent in it is in the bucket.
record IsBounded (limit window last : ℕ) (bucket log : List ℕ) : Type 0 where
  bound : (t : ℕ) → within t window log ≤ limit
  covered : (n : ℕ) → last ≤ n → recent n window log ≤ recent n window bucket

later-IsBounded :
    (m w last now : ℕ) (b log : List ℕ)
    → last ≤ now
    → IsBounded m w last b log
    → IsBounded m w now b log
later-IsBounded m w last now b log l h = record {
  bound = h.bound;
  covered = λ n k. h.covered n (omega arith);
}

refused-IsBounded :
    (m w last now : ℕ) (b log : List ℕ)
    → last ≤ now
    → IsBounded m w last b log
    → IsBounded m w now (evict now w b) log
refused-IsBounded m w last now b log l h = record {
  bound = h.bound;
  covered = λ n k. omega (arith, recent-evict n now w b k, h.covered n (omega arith));
}

granted-IsBounded :
    (m w last now : ℕ) (b log : List ℕ)
    → last ≤ now
    → leb m (length (evict now w b)) ≡ false
    → IsBounded m w last b log
    → IsBounded m w now (evict now w b ++ (now ∷ [])) (now ∷ log)
granted-IsBounded m w last now b log l room h = record {
  bound = λ t. ground (
    arith,
    h.bound t,
    within-recent t now w log,
    h.covered now l,
    recent-evict now now w b,
    recent-length now w (evict now w b),
  );
  covered = λ n k.
      let c = h.covered n (omega arith) in
      ground (arith, recent-append n w (evict now w b) (now ∷ []), recent-evict n now w b, c);
}

check_settings :
    (id now : ℕ) (s : RateLimiter)
    → ((check id now s).0.max_requests ≡ s.max_requests)
      × ((check id now s).0.window_seconds ≡ s.window_seconds)
      × ((check id now s).0.exempt_ids ≡ s.exempt_ids)
unfolding check
check_settings id now s = ground arith

check_other :
    (id user now : ℕ) (s : RateLimiter)
    → (id == user) ≡ false
    → (check id now s).0.buckets user ≡ s.buckets user
unfolding check
check_other id user now s h = ground arith

-- What a check of a user who is not exempt answers, and what becomes of the bucket.
check_own :
    (id now : ℕ) (s : RateLimiter)
    → is_exempt id s.exempt_ids ≡ false
    → let b = evict now s.window_seconds (s.buckets id) in
      let full = leb s.max_requests (length b) in
      ((check id now s).1 ≡ (if full then false else true))
      × ((check id now s).0.buckets id ≡ (if full then b else b ++ (now ∷ [])))
unfolding check
check_own id now s h = ground arith

-- The limiter of a user who is not exempt.
record Limits (user m w last : ℕ) (s : RateLimiter) (log : List ℕ) : Type 0 where
  same_max : s.max_requests ≡ m
  same_window : s.window_seconds ≡ w
  not_exempt : is_exempt user s.exempt_ids ≡ false
  bounded : IsBounded m w last (s.buckets user) log

own-IsBounded :
    (user m w last now : ℕ) (s : RateLimiter) (log : List ℕ)
    → last ≤ now
    → Limits user m w last s log
    → IsBounded m w now
        ((check user now s).0.buckets user)
        (if (check user now s).1 then now ∷ log else log)
own-IsBounded user m w last now s log l h =
    let (answer, bucket) = check_own user now s h.not_exempt in
    elim (Bool-cases (leb m (length (evict now w (s.buckets user))))) [
      | inl full ↦
          rw (answer, bucket, h.same_max, h.same_window, full)
            (refused-IsBounded m w last now (s.buckets user) log l h.bounded)
      | inr room ↦
          rw (answer, bucket, h.same_max, h.same_window, room)
            (granted-IsBounded m w last now (s.buckets user) log l room h.bounded)
    ]

step-IsBounded :
    (user m w last id now : ℕ) (s : RateLimiter) (log : List ℕ)
    → last ≤ now
    → Limits user m w last s log
    → IsBounded m w now
        ((check id now s).0.buckets user)
        (if (id == user) && (check id now s).1 then now ∷ log else log)
step-IsBounded user m w last id now s log l h = elim (Bool-cases (id == user)) [
  | inl e ↦
      let same : id ≡ user = ground arith in
      let refl_user : (user == user) ≡ true = ground arith in
      rw (same, refl_user) (own-IsBounded user m w last now s log l h)
  | inr e ↦
      rw (e, check_other id user now s e)
        (later-IsBounded m w last now (s.buckets user) log l h.bounded)
]

step-Limits :
    (user m w last id now : ℕ) (s : RateLimiter) (log : List ℕ)
    → last ≤ now
    → Limits user m w last s log
    → Limits user m w now
        (check id now s).0
        (if (id == user) && (check id now s).1 then now ∷ log else log)
step-Limits user m w last id now s log l h =
    let (x, y, z) = check_settings id now s in
    record {
      same_max = x ∙ h.same_max;
      same_window = y ∙ h.same_window;
      not_exempt = rw z h.not_exempt;
      bounded = step-IsBounded user m w last id now s log l h;
    }

allowed_bound :
    (user m w last : ℕ) (rs : List Request) (s : RateLimiter) (log : List ℕ)
    → IsAscending last rs
    → Limits user m w last s log
    → (t : ℕ) → within t w (allowed user rs s log) ≤ m
unfolding allowed
allowed_bound user m w last [] s log a h t = h.bounded.bound t
allowed_bound user m w last ((id, now) ∷ rs) s log (l, ls) h t =
    allowed_bound user m w now rs (check id now s).0
      (if (id == user) && (check id now s).1 then now ∷ log else log) ls
      (step-Limits user m w last id now s log l h) t

-- Over any requests of any users in order of time, no window of the limiter's length holds more
-- allowed requests of a user than the limit, unless the user is exempt.
pub allowed_within :
    (user t : ℕ) (rs : List Request) (s : RateLimiter)
    → is_exempt user s.exempt_ids ≡ false
    → s.buckets user ≡ []
    → IsAscending 0 rs
    → within t s.window_seconds (allowed user rs s []) ≤ s.max_requests
allowed_within user t rs s x e a =
    allowed_bound user s.max_requests s.window_seconds 0 rs s [] a
      (record {
        same_max = refl;
        same_window = refl;
        not_exempt = x;
        bounded = record { bound = λ t. omega arith; covered = λ n k. omega arith };
      })
      t
