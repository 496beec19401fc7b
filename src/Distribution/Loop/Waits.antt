-- ===== src/Distribution/Loop/Waits.antt =====
-- How long the loop of the rule client waits.
use Prim.Native.Nat.pow
use kontxt.Base.{
  ℕ, zero, suc, ◌*◌, ◌^◌, ◌≡◌, refl, inl, inr, ◌||◌, List, [], ◌∷◌, arith, ltb, Bool-cases, any,
  if◌then◌else◌,
}
use kontxt.Cel.{Cel}
use kontxt.Jwt.{Jwt}
use kontxt.Distribution.Loop.{State, Attempt, next_wait, connect, run}
use kontxt.Distribution.Loop.Laws.{is_done}

-- The attempts before the first with which the context is done.
abbrev pub count_before : List Attempt → ℕ
count_before [] = 0
count_before (a ∷ rest) = if is_done a then 0 else suc (count_before rest)

-- Half a second, doubled so many times, but not more than thirty seconds.
abbrev pub doubled : ℕ → ℕ
doubled n = if ltb 30000 (500 * 2 ^ n) then 30000 else 500 * 2 ^ n

-- So many waits, from the one with this number.
abbrev pub waits_from : ℕ → ℕ → List ℕ
waits_from i zero = []
waits_from i (suc n) = doubled i ∷ waits_from (suc i) n

next_wait-doubled : (i : ℕ) → next_wait (doubled i) ≡ doubled (suc i)
unfolding next_wait
next_wait-doubled i = ground (arith, pow.suc 2 i)

module _ {jwt : Jwt} {cel : Cel} where
  run-waits :
      (attempts : List Attempt) (i : ℕ) (s : State jwt cel)
      → ((run attempts (doubled i) s).1 ≡ waits_from i (count_before attempts))
        × ((run attempts (doubled i) s).2 ≡ any is_done attempts)
  unfolding run
  run-waits [] i s = (refl, refl)
  run-waits (a ∷ rest) i s = elim (Bool-cases (a.done || a.done_waiting)) [
    | inl over ↦ rw over (refl, refl)
    | inr on ↦
        let (waits, returned) = run-waits rest (suc i) (connect a.connection s).0 in
        rw (on, next_wait-doubled i, waits, returned) (refl, refl)
  ]

  -- The loop of the rule client of the token service waits once after each attempt before the first
  -- with which its context is done, first for 500 milliseconds, then each time twice as long but
  -- not more than 30000, and returns exactly when there is such an attempt.
  pub run-waits_from :
      (attempts : List Attempt) (s : State jwt cel)
      → ((run attempts 500 s).1 ≡ waits_from 0 (count_before attempts))
        × ((run attempts 500 s).2 ≡ any is_done attempts)
  run-waits_from attempts s = run-waits attempts 0 s
