-- ===== src/Tests/Fixtures.antt =====
-- Values of src/polara's types that the tests share.
use polara_quant.Base.{ℕ, Bool, true, false, none, some, List, [], ◌∷◌}
use polara_quant.Base.Int.{ℤ, pos}
use polara_quant.Base.Effects.{ok}
use polara_quant.Decimal.{fixed}
use polara_quant.Schemas.{Signal, AccountInfo, Position, OrderRequest, buy, utc, submitted}
use polara_quant.RiskGuard.{RiskGuard}
use polara_quant.Promotion.{Tables, StrategyStatus}
use polara_quant.Trades.{Trade, TradeTables, is_open}
use polara_quant.Broker.{Broker, Gateway, RawOrder, Order, Bracket}
use polara_quant.OrderManager.{OrderManager, Surroundings}

abbrev pub signal : Signal ℤ
signal = record {
  signal_id = 1;
  strategy_id = "momentum";
  symbol = "AAPL";
  strength = pos 500_000;
  generated_at = utc 0;
  reference_price = some (pos 100_000_000);
  stop_loss_pct = some (pos 2_000_000);
  take_profit_pct = some (pos 4_000_000);
}

-- 100000 of net liquidation, and a profit or loss of today.
abbrev pub account_with : ℤ → ℤ → AccountInfo ℤ
account_with net pnl = record {
  net_liquidation = net;
  cash = net;
  unrealised_pnl = pnl;
  realised_pnl = pos 0;
  currency = "USD";
  timestamp = utc 0;
}

abbrev pub guard : RiskGuard ℤ
guard = record {
  max_position = pos 50_000;
  max_daily_loss = pos 20_000;
  halted = false;
  halt_date = none;
}

abbrev pub holding : ℤ → Position ℤ
holding quantity = record {
  symbol = "AAPL";
  quantity = quantity;
  avg_cost = pos 100_000_000;
  unrealised_pnl = pos 0;
  updated_at = utc 0;
}

abbrev pub strategies : StrategyStatus → Tables
strategies status = record {
  strategies = record { id = "momentum"; name = "Momentum"; status = status; created_at = 0 } ∷ [];
  backtest_results = record { strategy_id = "momentum"; run_at = 0; passed = true } ∷ [];
}

abbrev pub request : OrderRequest ℤ
request = record {
  order_id = 7;
  symbol = "AAPL";
  side = buy;
  quantity = pos 10_000_000;
  limit_price = none;
  requested_at = utc 0;
  strategy_id = "momentum";
}

abbrev pub trade : Trade ℤ
trade = record {
  strategy_id = "momentum";
  symbol = "AAPL";
  side = buy;
  quantity = pos 10_000_000;
  entry_price = pos 100_000_000;
  exit_price = none;
  entry_at = 0;
  exit_at = none;
  realised_pnl = none;
  commission = pos 1_000_000;
  status = is_open;
  trade_date = 0;
  entry_order_id = 7;
  exit_order_id = none;
}

abbrev pub one_trade : TradeTables ℤ
one_trade = record { trades = trade ∷ []; daily_summary = [] }

-- A gateway that knows every symbol and answers every request with the numbers 31, 32 and 33.
abbrev pub gateway : Gateway ℤ
gateway = record {
  connected = true;
  account_id = ok "U1";
  account_summary = ok (λ _. some (pos 100_000_000_000));
  positions = ok [];
  get_conid = λ _. ok 265_598;
  place_orders = λ _. ok (
      record { order_id = some 31 }
      ∷ record { order_id = some 32 }
      ∷ record { order_id = some 33 }
      ∷ []);
  cancel_order = λ _. ok tt;
  list_orders = ok [];
}

abbrev pub empty_broker : Broker ℤ
empty_broker = record {
  account_cache = none;
  known_filled = [];
  has_trade_service = true;
  orders = [];
  bracket_orders = [];
  positions = [];
  account_snapshots = [];
  trades = record { trades = []; daily_summary = [] };
  placed = [];
  cancels = [];
}

abbrev pub order : Order ℤ
order = record {
  order_id = 7;
  symbol = "AAPL";
  side = buy;
  quantity = pos 10_000_000;
  limit_price = none;
  status = submitted;
  ib_order_id = some 31;
  strategy_id = "momentum";
  submitted_at = 0;
  filled_at = none;
}

abbrev pub bracket : Bracket ℤ
bracket = record {
  order_id = 7;
  stop_ib_id = some 32;
  take_profit_ib_id = some 33;
  stop_price = some (pos 98_000_000);
  take_profit_price = some (pos 104_000_000);
  created_at = 0;
}

-- After the bracket order above.
abbrev pub busy_broker : Broker ℤ
busy_broker = record empty_broker { orders = order ∷ []; bracket_orders = bracket ∷ [] }

abbrev pub filled_report : ℕ → RawOrder ℤ
filled_report i = record {
  order_id = some i;
  status = some "Filled";
  avg_price = some (pos 100_000_000);
  price = none;
  filled_quantity = some (pos 10_000_000);
  quantity = none;
}

abbrev pub never : ℕ → Bool
never _ = false

-- The database's sum, here without rounding.
abbrev pub sum_all : List ℤ → ℤ
sum_all [] = pos 0
sum_all (x ∷ xs) = fixed.add x (sum_all xs)

abbrev pub manager : OrderManager ℤ
manager = record {
  broker = empty_broker;
  guard = guard;
  strategies = strategies StrategyStatus.live;
  signal_orders = [];
  min_order_quantity = pos 1_000_000;
  position_size_usd = some (pos 1_000_000_000);
  pending = [];
}

abbrev pub surroundings : Surroundings ℤ
surroundings = record {
  gateway = gateway;
  account_at = 1;
  positions_at = 2;
  loss_at = 3;
  breach_at = 4;
  size_at = 5;
  requested_at = 6;
  placed_at = 7;
  logged_at = 8;
  log_answer = ok tt;
  order_id = 7;
  coid = 70;
}
