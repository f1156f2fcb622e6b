-- ===== src/Server/Supervisor/Backoff.antt =====
-- How long `_robot_supervisor` of live_trading/server.py waits.
use scalping.Prelude.{
  ℕ, zero, suc, ◌*◌, ◌^◌, min, ◌≡◌, refl, sym, ap, ◌∙◌, Bool, true, false, List, [], ◌∷◌, ◌++◌, All,
  length, arith,
}
use mathlib.Core.List.{append-nil}
use scalping.Server.Supervisor.{
  Attempt, no_config, returned, raised, exited, Supervisor, backoff_base, backoff_max, start, retry,
  supervise, rounds,
}

-- The loop goes on after the attempt.
abbrev pub goes_on : Attempt → Bool
goes_on exited = false
goes_on _ = true

-- The attempt ends with an exception that the loop catches.
abbrev pub fails : Attempt → Bool
fails exited = false
fails (returned true) = false
fails _ = true

abbrev pub AllGoOn : List Attempt → Type 0
AllGoOn ends = All (λ a. goes_on a ≡ true) ends

abbrev pub AllFail : List Attempt → Type 0
AllFail ends = All (λ a. fails a ≡ true) ends

-- The state after an attempt, and the wait.
abbrev after : Attempt → Supervisor → Supervisor × ℕ
after (returned true) s = (start, backoff_base)
after _ s = retry s

rounds-after :
    (a : Attempt) (ends : List Attempt) (s : Supervisor)
    → goes_on a ≡ true
    → let rest = rounds ends (after a s).0 in rounds (a ∷ ends) s ≡ (rest.0, (after a s).1 ∷ rest.1)
unfolding rounds supervise
rounds-after no_config ends s h = refl
rounds-after (returned true) ends s h = refl
rounds-after (returned false) ends s h = refl
rounds-after raised ends s h = refl
rounds-after exited ends s h = cc

-- The state after attempts after which the loop goes on.
rounds-append :
    (xs ys : List Attempt) (s : Supervisor)
    → AllGoOn xs
    → let mid = rounds xs s in
      let rest = rounds ys mid.0 in rounds (xs ++ ys) s ≡ (rest.0, mid.1 ++ rest.1)
unfolding rounds
rounds-append [] ys s h = refl
rounds-append (x ∷ xs) ys s (g, h) =
    let first = rounds-after x xs s g in
    let rest : Supervisor → Supervisor × List ℕ = rounds ys in
    rounds-after x (xs ++ ys) s g
    ∙ ap (λ (r : Supervisor × List ℕ). (r.0, (after x s).1 ∷ r.1))
        (rounds-append xs ys (after x s).0 h)
    ∙ ap (λ (m : Supervisor × List ℕ). ((rest m.0).0, m.1 ++ (rest m.0).1)) (sym first)

abbrev pub doubled : ℕ → ℕ
doubled n = min (backoff_base * 2 ^ n) backoff_max

doubled-suc : (n : ℕ) → min (doubled n * 2) backoff_max ≡ doubled (suc n)
doubled-suc n = omega arith

-- The waits of `n` failures in a row, the first after `m` others.
abbrev pub doubling : (m n : ℕ) → List ℕ
doubling m zero = []
doubling m (suc n) = doubled m ∷ doubling (suc m) n

fails-goes_on : (a : Attempt) → fails a ≡ true → goes_on a ≡ true
fails-goes_on no_config h = refl
fails-goes_on (returned true) h = refl
fails-goes_on (returned false) h = refl
fails-goes_on raised h = refl
fails-goes_on exited h = cc

fails-after : (a : Attempt) (s : Supervisor) → fails a ≡ true → after a s ≡ retry s
fails-after no_config s h = refl
fails-after (returned true) s h = cc
fails-after (returned false) s h = refl
fails-after raised s h = refl
fails-after exited s h = cc

AllFail-AllGoOn : (ends : List Attempt) → AllFail ends → AllGoOn ends
AllFail-AllGoOn [] h = tt
AllFail-AllGoOn (a ∷ ends) (f, h) = (fails-goes_on a f, AllFail-AllGoOn ends h)

AllGoOn-append : (xs ys : List Attempt) → AllGoOn xs → AllGoOn ys → AllGoOn (xs ++ ys)
AllGoOn-append [] ys h k = k
AllGoOn-append (x ∷ xs) ys (g, h) k = (g, AllGoOn-append xs ys h k)

rounds-doubling :
    (m : ℕ) (ends : List Attempt) (s : Supervisor)
    → AllFail ends
    → s.backoff ≡ doubled m
    → (rounds ends s).1 ≡ doubling m (length ends)
unfolding rounds
rounds-doubling m [] s h e = refl
rounds-doubling m (a ∷ ends) s (f, h) e =
    let next : (retry s).0.backoff ≡ doubled (suc m) =
      ap (λ b. min (b * 2) backoff_max) e ∙ doubled-suc m in
    let wait : (retry s).1 ≡ doubled m = omega (arith, e) in
    let rest = rounds-doubling (suc m) ends (retry s).0 h next in
    ap (λ (r : Supervisor × List ℕ). r.1) (rounds-after a ends s (fails-goes_on a f))
    ∙ ap (λ (r : Supervisor × ℕ). r.1 ∷ (rounds ends r.0).1) (fails-after a s f)
    ∙ ap (λ w. w ∷ (rounds ends (retry s).0).1) wait
    ∙ ap (λ ws. doubled m ∷ ws) rest

-- Attempts of which none ends with `SystemExit`, then a clean exit, then any number of failures: the
-- waits after the clean exit are 15 seconds, and for the failures 15, 30, 60 and then 120 again and
-- again, that is 15 doubled once for each failure before, or 120 if that is less. And an attempt that
-- ends with `SystemExit` is the last: whatever would come after it is not tried, and nothing is waited
-- for.
pub rounds_backoff :
    (before ends later : List Attempt)
    → AllGoOn before
    → AllFail ends
    → let run = before ++ returned true ∷ ends in
      ((rounds run start).1 ≡ (rounds before start).1 ++ 15 ∷ doubling 0 (length ends))
      × (rounds (run ++ exited ∷ later) start ≡ rounds run start)
unfolding rounds supervise
rounds_backoff before ends later h k = (waits, ended)
  where
    waits :
        (rounds (before ++ returned true ∷ ends) start).1
        ≡ (rounds before start).1 ++ 15 ∷ doubling 0 (length ends)
    waits =
        ap (λ r. r.1) (rounds-append before (returned true ∷ ends) start h)
        ∙ ap (λ ws. (rounds before start).1 ++ 15 ∷ ws) (rounds-doubling 0 ends start k refl)

    run : List Attempt
    run = before ++ returned true ∷ ends

    ended : rounds (run ++ exited ∷ later) start ≡ rounds run start
    ended =
        rounds-append run (exited ∷ later) start
          (AllGoOn-append before (returned true ∷ ends) h (refl, AllFail-AllGoOn ends k))
        ∙ ap (λ ws. ((rounds run start).0, ws)) (append-nil (rounds run start).1)
