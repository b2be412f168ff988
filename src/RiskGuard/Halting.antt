-- ===== src/RiskGuard/Halting.antt =====
-- The halt of src/polara/risk_guard/guard.py as a state machine over sequences of checks.
use polara_quant.Base.{
  ℕ, ◌≤◌, ◌<◌, ◌≡◌, refl, Bool, true, false, Option, none, some, List, [], ◌∷◌, All, All-map, arith,
}
use polara_quant.Base.Effects.{Action, Result, err, risk_violation}
use polara_quant.Decimal.{Decimal}
use polara_quant.Schemas.{Signal, Position, AccountInfo, date_of}
use polara_quant.RiskGuard.{
  RiskGuard, new, reset_if_new_day, raise_if_halted, check_position_size, check_daily_loss,
}

-- A call of one of the two checks, with the clock that it reads.
pub data Check (D : Type 0) : Type 0 where
  position_size : ℕ → Signal D → List (Position D) → AccountInfo D → Check D
  daily_loss : ℕ → ℕ → AccountInfo D → Check D

abbrev pub clock : {D : Type 0} → Check D → ℕ
clock (position_size now _ _ _) = now
clock (daily_loss now _ _) = now

abbrev is_some : Option ℕ → Bool
is_some none = false
is_some (some _) = true

-- The guard is halted exactly while it has the date of a halt.
abbrev pub IsConsistent : {D : Type 0} → RiskGuard D → Type 0
IsConsistent g = g.halted ≡ is_some g.halt_date

abbrev pub IsRefused : Result (Unit {0}) → Type 0
IsRefused r = r ≡ err risk_violation

module _ {D : Type 0} ⦃d : Decimal D⦄ where
  unfoldable pub check : Check D → Action (RiskGuard D) (Unit {0})
  check (position_size now signal positions account) =
      check_position_size now signal positions account
  check (daily_loss now breached_at account) = check_daily_loss now breached_at account

  -- The results of a sequence of checks, and the guard after it.
  unfoldable pub run : List (Check D) → RiskGuard D → List (Result (Unit {0})) × RiskGuard D
  run [] g = ([], g)
  run (c ∷ cs) g = let (r, g') = check c g in let (rs, g'') = run cs g' in (r ∷ rs, g'')

  check-IsConsistent : (c : Check D) (g : RiskGuard D) → IsConsistent g → IsConsistent (check c g).1
  unfolding check check_position_size check_daily_loss raise_if_halted reset_if_new_day
  check-IsConsistent (position_size now signal positions account) g h = ground arith
  check-IsConsistent (daily_loss now breached_at account) g h = ground arith

  -- However the checks of a guard are interleaved, it is halted exactly while it has a halt
  -- date, if it was so at the start.
  pub run-IsConsistent :
      (cs : List (Check D)) (g : RiskGuard D) → IsConsistent g → IsConsistent (run cs g).1
  unfolding run
  run-IsConsistent [] g h = h
  run-IsConsistent (c ∷ cs) g h = run-IsConsistent cs (check c g).1 (check-IsConsistent c g h)

  pub new-IsConsistent : (a b : D) → IsConsistent (new a b)
  unfolding new
  new-IsConsistent a b = refl

  check_while_halted :
      (c : Check D) (g : RiskGuard D) (h : ℕ)
      → g.halted ≡ true
      → g.halt_date ≡ some h
      → date_of (clock c) ≤ h
      → check c g ≡ (err risk_violation, g)
  unfolding check check_position_size check_daily_loss raise_if_halted reset_if_new_day
  check_while_halted (position_size now signal positions account) g h p q r = ground arith
  check_while_halted (daily_loss now breached_at account) g h p q r = ground arith

  -- A guard that was halted on a day refuses every check up to the end of that day, and stays as it
  -- is.
  pub run_while_halted :
      (cs : List (Check D)) (g : RiskGuard D) (h : ℕ)
      → g.halted ≡ true
      → g.halt_date ≡ some h
      → All (λ c. date_of (clock c) ≤ h) cs
      → All IsRefused (run cs g).0 × ((run cs g).1 ≡ g)
  unfolding run
  run_while_halted [] g h p q a = (tt, refl)
  run_while_halted (c ∷ cs) g h p q (a, as') =
      rw (check_while_halted c g h p q a)
        ((refl, (run_while_halted cs g h p q as').0), (run_while_halted cs g h p q as').1)

  abbrev halt_day : RiskGuard D → ℕ
  halt_day g = elim g.halt_date [ none ↦ 0 | some h ↦ h ]

  -- What a refusal by `check_daily_loss` leaves behind: a halt dated on the day of the call.
  refused_daily_loss :
      (now at : ℕ) (account : AccountInfo D) (g : RiskGuard D)
      → IsConsistent g
      → date_of at ≡ date_of now
      → IsRefused (check_daily_loss now at account g).0
      → let g' = (check_daily_loss now at account g).1 in
        (h : ℕ) × (g'.halted ≡ true) × (g'.halt_date ≡ some h) × (date_of now ≤ h)
  unfolding check_daily_loss raise_if_halted reset_if_new_day
  refused_daily_loss now at account g c same r =
      (halt_day (check_daily_loss now at account g).1, ground arith, ground arith, ground arith)

  -- For a guard that is halted exactly while it has a halt date: once `check_daily_loss` has refused,
  -- every later check up to the end of that day is refused, whatever the account, the signal and the
  -- positions are by then. The two readings of the clock in the refusing call are of one day.
  pub breach_halts_day :
      (now at : ℕ) (account : AccountInfo D) (g : RiskGuard D) (cs : List (Check D))
      → IsConsistent g
      → date_of at ≡ date_of now
      → IsRefused (check_daily_loss now at account g).0
      → All (λ c. date_of (clock c) ≤ date_of now) cs
      → All IsRefused (run cs (check_daily_loss now at account g).1).0
  breach_halts_day now at account g cs c same r a =
      let (h, halted, dated, late) = refused_daily_loss now at account g c same r in
      (run_while_halted cs (check_daily_loss now at account g).1 h halted dated
        (All-map (λ k q. omega arith) cs a)).0

  -- After the day of the halt the first check of a halted guard resumes: it does what it would
  -- do had there been no halt.
  pub check_resumes :
      (c : Check D) (g : RiskGuard D) (h : ℕ)
      → g.halted ≡ true
      → g.halt_date ≡ some h
      → h < date_of (clock c)
      → check c g ≡ check c (record g { halted = false; halt_date = none })
  unfolding check check_position_size check_daily_loss raise_if_halted reset_if_new_day
  check_resumes (position_size now signal positions account) g h p q r = ground arith
  check_resumes (daily_loss now at account) g h p q r = ground arith
