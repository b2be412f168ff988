-- ===== src/Backtester/Completion.antt =====
-- A run of the backtester comes to its end.
use polara_quant.Base.{ℕ, ◌≡◌, true, false, List}
use polara_quant.Base.Effects.{Result, ok}
use polara_quant.Decimal.{Decimal, zero_d}
use polara_quant.Schemas.{Bar}
use polara_quant.Strategies.{Stamp, Strategy}
use polara_quant.Backtester.Replay.{Backtester, Replay}

pub data Succeeds {A : Type 0} : Result A → Type 0 where
  answer : (a : A) → Succeeds (ok a)

module _ {D : Type 0} ⦃d : Decimal D⦄ where
  -- The root of a positive number is not zero, as for all floats.
  abbrev pub KeepsPositive : (D → D) → Type 0
  KeepsPositive root = (x : D) → d.lt zero_d x ≡ true → d.eq (root x) zero_d ≡ false

-- A strategy that raises nothing.
abbrev pub IsQuiet : {D : Type 0} → Strategy D → Type 0
IsQuiet s = (stamp : Stamp) (window : List (Bar _)) → Succeeds (s.on_bars stamp window)

module _ {D : Type 0} ⦃d : Decimal D⦄ (b : Backtester D) (stamps : ℕ → Stamp)
    (quiet : IsQuiet b.strategy) where
  -- A bar that can be filled at its open.
  abbrev pub IsPriced : Bar D → Type 0
  IsPriced bar = d.eq bar.open_price zero_d ≡ false
