-- ===== src/Lib.antt =====
-- A model of polara, an automated trading program: from bars to a strategy's signal, through the risk
-- checks to orders at the broker, and back from fills to trades and daily summaries; and the replay of
-- a strategy on historical bars.
--
-- The parts, and the files that model them:
--   Schemas       src/polara/schemas, broker/schemas.py and constants.py: the value types and what their
--                 validators refuse. A constructor such as `OrderRequest(...)` is a function into a
--                 result (`order_request`).
--   RiskGuard     src/polara/risk_guard/guard.py: `check_position_size`, `check_daily_loss`, the halt.
--   Promotion     src/polara/research_engine/promotion.py and status_service.py, with `save` and
--                 `has_passing_result` of backtester/service.py. Promotion/Reach has each `await` as a
--                 step of its own, so that requests overlap.
--   Trades        src/polara/dashboard/trade_service.py: `open_trade`, `close_trade`, `record_nav`, and
--                 the SQL statements that they execute.
--   Broker        src/polara/broker/adapter.py. State is the adapter's caches and tables, Account the
--                 account and the positions, Orders the placing and cancelling, Polling the statuses and
--                 fills that the gateway reports, which call the trade service, Snapshots one turn of
--                 the loop that records the account, and the listings.
--   CpClient      src/polara/broker/cp_client.py, the client of the gateway that is below the adapter,
--                 and the part of broker/client.py that starts and stops it. State has its state and
--                 what the gateway answers (`Wire`). Keepalive is about the loop that keeps the session,
--                 Contracts about the cache of contract numbers, Confirming about `place_orders`,
--                 Starting about a start that fails.
--   OrderManager  src/polara/order_manager/manager.py: `process_signal`, which uses the broker adapter, the
--                 risk guard and the statuses. Process and Outcomes follow one call, Exits the prices
--                 of a bracket, Pending the quantities in flight.
--   MarketData    src/polara/market_data. Sessions is session.py, with the time zone as a parameter;
--                 PrevSession is about the search for the session before a day. Fetcher is fetcher.py,
--                 which asks CpClient, with its period in Periods; Store is store.py, a table of bars;
--                 Service is service.py, which has the fetcher fill the table and answers from it. Table
--                 is about the upsert as a map, Latest about the query, Refreshing and Fetched about
--                 `get_bars` as a whole.
--   Strategies    src/polara/research_engine/base.py and strategies: a module for each strategy, with its
--                 settings, the bars it needs and `on_bars`. Indicators has the series they read,
--                 Signalling the end that their `on_bars` have in common. Rules and SessionRules take
--                 those that look at the bars alone, and at the sessions, together.
--   Backtester    src/polara/backtester/engine.py and schemas.py: BarSizes and Metrics for the functions,
--                 Replay for `run`; Fills, Chronology, Accounts, Drawdown and Completion are about them.
--   Schedulers    src/polara/research_engine/registry.py, scheduler.py and intraday_scheduler.py: one cycle,
--                 which calls the strategies and the order manager. Confluence is
--                 confluent_scheduler.py. Orders, Submitting and Cycles follow the orders of a cycle.
--   Calibration   src/polara/calibration: engine.py in the module itself, about which are Tuning and Results;
--                 Cycle is `calibrate_all` and a cycle of scheduler.py.
--   Dashboard     src/polara/dashboard/dashboard_service.py: its queries over the trades and the
--                 summaries. Histogram is `pnl_distribution`, Overview `strategy_overview`, Curves has the
--                 metrics, the equity curve and the rolling ratio; Queries, Counts, Days and Windows
--                 are about them. Floats are an argument (`Real`).
--   Decimal       what the program does with `decimal.Decimal`, as a record of operations (Ops), with the
--                 laws that some theorems rely on (Laws) and an instance of fixed precision that has
--                 them (Fixed). The laws are for finite values that do not exceed the precision.
--   Base          Boolean tests, lists, dicts, integers, and calls that mutate a state and may raise
--                 (Effects). Sorting, Ascending and Pages are what `ORDER BY` and `LIMIT` do.
--   Tests         the theorems at concrete inputs.
--
-- A method that mutates `self` or the database is a function from a state to a result and a state: what
-- was written before a raise stays written, unless the session of the code is rolled back, which the
-- model writes out. A table is a list of rows, with its WHERE clauses as tests. Clocks, fresh
-- identifiers, the gateway's answers and the database's sums of floats are arguments. A time is a number
-- of microseconds of UTC, and its date is that number divided by a day's length. UUIDs are numbers.
-- Recursion is structural, on the lists that the source iterates. Only `_reconnect_loop`, which has no
-- end while the gateway is away, is on fuel: one unit for each attempt, so that any fuel above the number
-- of attempts that fail is enough.
--
-- `math.sqrt` is the parameter `root`. The operation `div` of `Decimal` is total. Where the source may
-- divide by zero, the ratios of the backtest, the shares of a fill, the bins of the histogram and the
-- daily returns check the divisor and raise. The strategies do not: for periods of zero, and beyond the
-- guards that they have, the source raises where the model goes on, so that what is stated of a strategy
-- is about the signals that it answers with. `** 2` is a product, and `int` and `lower` of a text are
-- those of ASCII. The numbers of a fill that the gateway reports are read before they are tested: a text
-- "0", which Python takes as true, counts as zero.
--
-- Not modelled: the HTTP routes, the start-up, the scripts, logging and the texts of exceptions. The JSON
-- that the gateway sends is read into the types of CpClient/State; the adapter's own reading of it, from
-- the answers of `CPClient` on, is the parameter `Gateway` of Broker. A table of bars stores prices
-- with the argument `column`, which is what the database makes of a number, and its statements do not
-- fail. How the calibration reads and sets the fields of a strategy object is the parameter `Tunable`.
-- The queries for stored calibrations and backtests and for an order with its fills are missing. Other
-- conversions between `Decimal`, text and floats in the database and the requests are left out. Of the
-- statements that place an order only two can fail: the insertion of its row, for an id that the table
-- has, and that of the row in the signals' log; the rows of the brackets always go in.
pub mod Base
pub mod Decimal
pub mod Schemas
pub mod RiskGuard
pub mod Promotion
pub mod Trades
pub mod Broker
pub mod CpClient
pub mod OrderManager
pub mod MarketData
pub mod Strategies
pub mod Backtester
pub mod Schedulers
pub mod Calibration
pub mod Dashboard
pub mod Tests
