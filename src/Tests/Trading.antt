-- ===== src/Tests/Trading.antt =====
-- Trades and daily summaries (src/polara/dashboard/trade_service.py) at concrete inputs.
use polara_quant.Base.{refl, arith, nat_eq}
use polara_quant.Base.Int.{pos}
use polara_quant.Decimal.{fixed}
use polara_quant.Schemas.{buy}
use polara_quant.Trades.{close_trade, open_trade, record_nav}
use polara_quant.Trades.Summary.{
  IsCurrent, open_trade-IsCurrent, record_nav-IsCurrent, close_trade-IsCurrent,
}
use polara_quant.Tests.Fixtures.{one_trade, sum_all}

one_trade-IsCurrent : IsCurrent one_trade
one_trade-IsCurrent day = ground arith

open_trade-IsCurrent_example :
    IsCurrent
      (open_trade 9 "momentum" "MSFT" buy
        (pos 1_000_000)
        (pos 50_000_000)
        (pos 1_000_000)
        3
        one_trade).1
open_trade-IsCurrent_example =
    open_trade-IsCurrent 9 "momentum" "MSFT" buy (pos 1_000_000) (pos 50_000_000) (pos 1_000_000) 3
      one_trade one_trade-IsCurrent

record_nav-IsCurrent_example : IsCurrent (record_nav (pos 100_000_000) 4 one_trade).1
record_nav-IsCurrent_example =
    record_nav-IsCurrent (pos 100_000_000) 4 one_trade one_trade-IsCurrent

close_trade-IsCurrent_example :
    IsCurrent (close_trade sum_all 7 8 (pos 110_000_000) (pos 1_000_000) 5 5 one_trade).1
close_trade-IsCurrent_example =
    close_trade-IsCurrent sum_all 7 8 (pos 110_000_000) (pos 1_000_000) 5 5 one_trade
      ((λ _. refl), tt) one_trade-IsCurrent
