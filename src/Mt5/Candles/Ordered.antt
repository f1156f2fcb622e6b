-- ===== src/Mt5/Candles/Ordered.antt =====
-- The candles that live_trading/mt5/connector.py returns are in order.
use scalping.Prelude.{
  last_start, ℕ, zero, suc, ◌+◌, ◌-◌, ◌≤◌, ◌<◌, ◌≡◌, refl, true, false, not, ◌||◌, Option, List, [],
  ◌∷◌, All, but_last, drop, last_n, length, length-drop, leb, ltb, ◌==◌, arith, Bool-cases, inl,
  inr,
}
use scalping.Signals.Smc.{member}
use scalping.Mt5.Candles.{
  Bar, readable, insert, sort_onto, once, is_complete, complete, completed_candles, candles_of_rows,
}

member-head : (k : ℕ) (ks : List ℕ) → member k (k ∷ ks) ≡ true
member-head k ks = ground arith

past_last : (m t : ℕ) (seen : List ℕ) → m ≤ t → member m seen ≡ true → member t seen ≡ false → m < t
past_last m t seen le old new = elim (Bool-cases (m == t)) [
  | inl e ↦ let same : m ≡ t = ground arith in cc (same, old, new)
  | inr e ↦ ground arith
]

module _ {ℓ} {C : Type ℓ} where
  -- Every time is past the one before it.
  abbrev pub IsIncreasing : List (Bar C) → Type 0
  IsIncreasing [] = Unit
  IsIncreasing (b ∷ []) = Unit
  IsIncreasing (b ∷ c ∷ cs) = (b.time < c.time) × IsIncreasing (c ∷ cs)

  -- From a time on, in order.
  abbrev IsSorted : ℕ → List (Bar C) → Type 0
  IsSorted m [] = Unit
  IsSorted m (b ∷ bs) = (m ≤ b.time) × IsSorted b.time bs

  insert-IsSorted :
      (m : ℕ) (b : Bar C) (bs : List (Bar C))
      → m ≤ b.time
      → IsSorted m bs
      → IsSorted m (insert b bs)
  unfolding insert
  insert-IsSorted m b [] le h = (le, tt)
  insert-IsSorted m b (c ∷ cs) le (first, rest) = elim (Bool-cases (ltb b.time c.time)) [
    | inl e ↦ rw e (le, (ground arith, rest))
    | inr e ↦ rw e (first, insert-IsSorted c.time b cs (ground arith) rest)
  ]

  sort_onto-IsSorted : (bs ss : List (Bar C)) → IsSorted 0 ss → IsSorted 0 (sort_onto bs ss)
  unfolding sort_onto
  sort_onto-IsSorted [] ss h = h
  sort_onto-IsSorted (b ∷ bs) ss h =
      sort_onto-IsSorted bs (insert b ss) (insert-IsSorted 0 b ss (omega arith) h)

  IsSorted-from : (m n : ℕ) (bs : List (Bar C)) → m ≤ n → IsSorted n bs → IsSorted m bs
  IsSorted-from m n [] le h = tt
  IsSorted-from m n (b ∷ bs) le (first, rest) = (omega arith, rest)

  -- In order, and past a time that has been seen.
  abbrev IsPast : ℕ → List (Bar C) → Type 0
  IsPast m [] = Unit
  IsPast m (b ∷ bs) = (m < b.time) × IsPast b.time bs

  IsPast-from : (m n : ℕ) (bs : List (Bar C)) → m < n → IsPast n bs → IsPast m bs
  IsPast-from m n [] lt h = tt
  IsPast-from m n (b ∷ bs) lt (first, rest) = (omega arith, rest)

  once-IsPast :
      (m : ℕ) (seen : List ℕ) (bs : List (Bar C))
      → member m seen ≡ true
      → IsSorted m bs
      → IsPast m (once seen bs)
  unfolding once
  once-IsPast m seen [] old h = tt
  once-IsPast m seen (b ∷ bs) old (le, h) = elim (Bool-cases (member b.time seen)) [
    | inl e ↦ rw e (once-IsPast m seen bs old (IsSorted-from m b.time bs le h))
    | inr e ↦ rw e (
      past_last m b.time seen le old e,
      once-IsPast b.time (b.time ∷ seen) bs (member-head b.time seen) h,
    )
  ]

  IsPast-IsIncreasing : (m : ℕ) (bs : List (Bar C)) → IsPast m bs → IsIncreasing bs
  IsPast-IsIncreasing m [] h = tt
  IsPast-IsIncreasing m (b ∷ []) h = tt
  IsPast-IsIncreasing m (b ∷ c ∷ cs) (_, (lt, h)) =
      (lt, IsPast-IsIncreasing b.time (c ∷ cs) (lt, h))

  once-IsIncreasing : (bs : List (Bar C)) → IsSorted 0 bs → IsIncreasing (once [] bs)
  unfolding once
  once-IsIncreasing [] h = tt
  once-IsIncreasing (b ∷ bs) (_, h) =
      let past = once-IsPast b.time (b.time ∷ []) bs (member-head b.time []) h in
      head_first b (once (b.time ∷ []) bs) past
    where
      head_first : (b : Bar C) (bs : List (Bar C)) → IsPast b.time bs → IsIncreasing (b ∷ bs)
      head_first b [] h = tt
      head_first b (c ∷ cs) (lt, h) = (lt, IsPast-IsIncreasing b.time (c ∷ cs) (lt, h))

  -- Keeping fewer candles keeps the order.
  complete-IsPast : (now m : ℕ) (bs : List (Bar C)) → IsPast m bs → IsPast m (complete now bs)
  unfolding complete
  complete-IsPast now m [] h = tt
  complete-IsPast now m (b ∷ bs) (lt, h) = elim (Bool-cases (is_complete now b)) [
    | inl e ↦ rw e (lt, complete-IsPast now b.time bs h)
    | inr e ↦ rw e (complete-IsPast now m bs (IsPast-from m b.time bs lt h))
  ]

  IsIncreasing-IsPast : (b : Bar C) (bs : List (Bar C)) → IsIncreasing (b ∷ bs) → IsPast b.time bs
  IsIncreasing-IsPast b [] h = tt
  IsIncreasing-IsPast b (c ∷ cs) (lt, h) = (lt, IsIncreasing-IsPast c cs h)

  IsPast-cons : (b : Bar C) (bs : List (Bar C)) → IsPast b.time bs → IsIncreasing (b ∷ bs)
  IsPast-cons b [] h = tt
  IsPast-cons b (c ∷ cs) (lt, h) = (lt, IsPast-cons c cs h)

  complete-IsIncreasing :
      (now : ℕ) (bs : List (Bar C)) → IsIncreasing bs → IsIncreasing (complete now bs)
  unfolding complete
  complete-IsIncreasing now [] h = tt
  complete-IsIncreasing now (b ∷ bs) h =
      let past = complete-IsPast now b.time bs (IsIncreasing-IsPast b bs h) in
      elim (Bool-cases (is_complete now b)) [
        | inl e ↦ rw e (IsPast-cons b (complete now bs) past)
        | inr e ↦ rw e (IsPast-IsIncreasing b.time (complete now bs) past)
      ]

  but_last-IsIncreasing : (bs : List (Bar C)) → IsIncreasing bs → IsIncreasing (but_last bs)
  but_last-IsIncreasing [] h = tt
  but_last-IsIncreasing (b ∷ []) h = tt
  but_last-IsIncreasing (b ∷ c ∷ []) h = tt
  but_last-IsIncreasing (b ∷ c ∷ d ∷ ds) (lt, h) = (lt, but_last-IsIncreasing (c ∷ d ∷ ds) h)

  drop-IsIncreasing : (n : ℕ) (bs : List (Bar C)) → IsIncreasing bs → IsIncreasing (drop n bs)
  drop-IsIncreasing zero bs h = h
  drop-IsIncreasing (suc n) [] h = tt
  drop-IsIncreasing (suc n) (b ∷ []) h = drop-IsIncreasing n [] tt
  drop-IsIncreasing (suc n) (b ∷ c ∷ cs) (lt, h) = drop-IsIncreasing n (c ∷ cs) h

  -- Of the hours: complete.
  abbrev pub IsClosed : (tf_min now : ℕ) → Bar C → Type 0
  IsClosed tf now b = (not (tf == 60) || leb (b.time + 3600) (now - 2)) ≡ true

  complete-IsClosed : (tf now : ℕ) (bs : List (Bar C)) → All (IsClosed tf now) (complete now bs)
  unfolding complete
  complete-IsClosed tf now [] = tt
  complete-IsClosed tf now (b ∷ bs) = elim (Bool-cases (is_complete now b)) [
    | inl e ↦ rw (e, All) (ground arith, complete-IsClosed tf now bs)
    | inr e ↦ rw (e, All) (complete-IsClosed tf now bs)
  ]

  All-other : (tf now : ℕ) (bs : List (Bar C)) → (tf == 60) ≡ false → All (IsClosed tf now) bs
  All-other tf now [] h = tt
  All-other tf now (b ∷ bs) h = (rw h refl, All-other tf now bs h)

  drop-All {κ} : (P : Bar C → Type κ) (n : ℕ) (bs : List (Bar C)) → All P bs → All P (drop n bs)
  drop-All P zero bs h = h
  drop-All P (suc n) [] h = tt
  drop-All P (suc n) (b ∷ bs) (p, h) = drop-All P n bs h

  completed_candles-IsOrdered :
      (bs : List (Bar C)) (tf now : ℕ)
      → IsIncreasing (completed_candles bs tf now)
        × All (IsClosed tf now) (completed_candles bs tf now)
  unfolding completed_candles
  completed_candles-IsOrdered bs tf now =
      let ordered = once [] (sort_onto bs []) in
      let up = once-IsIncreasing (sort_onto bs []) (sort_onto-IsSorted bs [] tt) in
      elim (Bool-cases (tf == 60)) [
        | inl e ↦ (
          rw e (complete-IsIncreasing now ordered up),
          rw (e, All) (complete-IsClosed tf now ordered),
        )
        | inr e ↦ (rw e (but_last-IsIncreasing ordered up), All-other tf now _ e)
      ]

  length-last_n : (n : ℕ) (bs : List (Bar C)) → 1 ≤ n → n ≤ length bs → length (last_n n bs) ≡ n
  length-last_n zero bs some_asked h = absurd (omega (arith, some_asked))
  length-last_n (suc n) bs some_asked h = omega (arith, length-drop (length bs - suc n) bs, h)

  -- For any rows of the bridge, in any order, and a count that is not 0: the candles that are returned are in strictly increasing
  -- order of time and no more than asked for; those of hours are over for two seconds at least.
  pub candles_of_rows-IsOrdered :
      (rows : List (Option (Bar C))) (tf count now : ℕ)
      → 1 ≤ count
      → let cs = candles_of_rows rows tf count now in
        IsIncreasing cs × (length cs ≤ count) × All (IsClosed tf now) cs
  unfolding candles_of_rows
  candles_of_rows-IsOrdered rows tf count now some_asked =
      let cs = completed_candles (readable rows) tf now in
      let (up, closed) = completed_candles-IsOrdered (readable rows) tf now in
      elim (Bool-cases (ltb count (length cs))) [
        | inl e ↦
            let short = length-last_n count cs some_asked (ground arith) in
            (
              rw e (drop-IsIncreasing (last_start count (length cs)) cs up),
              rw e (omega (arith, short)),
              rw (e, All) (drop-All (IsClosed tf now) (last_start count (length cs)) cs closed),
            )
        | inr e ↦ (rw e up, rw e (ground arith), rw (e, All) closed)
      ]
