-- ===== src/Tests/Promoting.antt =====
-- The promotion gate (src/polara/research_engine/promotion.py) at concrete inputs.
use polara_quant.Base.{List, [], ◌∷◌, arith, string_eq}
use polara_quant.Promotion.{get_status, has_passing_result, paper}
use polara_quant.Promotion.Reach
use polara_quant.Promotion.Reach.{
  System, IsBacked, Event, begin_promote, begin_demote, resume, run-IsBacked, run-promote, idle,
}
use polara_quant.Tests.Fixtures.{strategies}

abbrev start : System
start = record { tables = strategies paper; task = λ _. idle }

-- Two requests that overlap: the second one finds the strategy live.
abbrev overlapping : List Event
overlapping =
    begin_promote 1 "momentum"
    ∷ (begin_promote 2 "momentum" ∷ (resume 1 ∷ (resume 1 ∷ (resume 2 ∷ []))))

start-IsBacked : IsBacked start
unfolding get_status has_passing_result
start-IsBacked = record { live_backed = λ id h. ground arith; task_backed = λ i. tt }

run-IsBacked_example : IsBacked (Reach.run overlapping start)
run-IsBacked_example = run-IsBacked overlapping start start-IsBacked
