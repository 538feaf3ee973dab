-- ===== src/Lib.antt =====
-- A model of the paper-trading core of crypto_mas, of the portfolio engine and the checks that stand
-- before it, of the strategies, the trading cycle and the queue that drive it, of backtests, and of
-- four parts beside it. Paths are from the root of the repository; src/crypto_mas/ is not written
-- out.
--
-- How the parts interact. A trading cycle fetches candles, marks what is open, and asks a strategy
-- about each symbol. Its decisions pass the gates and the shields, and the portfolio engine makes a
-- target of them and of the symbols that are open. The target passes the risk engine and waits in the
-- executor queue. Its worker calls the paper broker, which marks open positions to market, where
-- stops trail and positions are sold at their stop or target, closes what the target no longer holds,
-- and opens what it newly holds. All three passes read and write the tables through repositories and
-- report what they did. The candles that features stand on pass the integrity checker first. A
-- backtest reads candles and snapshots through caches in memory, and its engine lets a strategy
-- decide on a window of snapshots.
--
-- The files.
--  Prelude, Prelude/Tests, Lists, Int, Dict: shared names, tests, lists, integers, and Python's
--    dictionaries and sets of texts.
--  Numbers: `Numerics`, what is used of Python's Decimal and float, as an interface that every other
--    module takes; `IsOrdered`, the laws of the order and of rounding that some theorems rely on.
--    Numbers/Fixed fills both with integers that count units of 10^-8, for tests and witnesses.
--  Domain: the rows and value objects of domain/models, domain/value_objects/enums.py,
--    services/paper_trading/schemas.py and engine/portfolio/__init__.py. `Store` holds the tables.
--  Repository/Positions, Accounts, Records: domain/repositories/position_repository.py,
--    paper_account_repository.py, feature_snapshot_repository.py, and
--    services/paper_trading/execution_reporter.py, a function for each method. Positions/Queries and
--    Positions/Listing hold lemmas on rows found by key and on the list of open positions.
--  Paper/Calculator: services/paper_trading/risk_calculator.py, `RiskCalculator`; Calculator/Bounds.
--  Paper/Session: the broker, a call and the state of a pass; an `Outcome` is a value or an
--    exception that leaves the method. Paper/Loop: what a loop over positions does if each round
--    writes only its row.
--  Paper/Fill, Paper/Execute: `execute_target_portfolio` of
--    services/paper_trading/position_manager.py. The body of its loop is `execute_one`, whose checks
--    stand in `check_market` and `check_size` in the order of the source. Execute/Steps, Book,
--    Results and Returns hold the proofs.
--  Paper/Close: `close_positions_not_in_target` of the same file; `close_one` is the body of its
--    loop.
--  Paper/Valuation, Paper/Mark: services/paper_trading/mark_to_market.py; `mark_one` is the body of
--    the loop. Mark/Levels describes the trailing of a stop apart from the code.
--  MarketData/Integrity: services/market_data_service/integrity.py, with Integrity/Series, Quality
--    and Validity for what its checks say; MarketData/Schemas is what it uses of schemas.py.
--  Paper/Broker: services/paper_trading/paper_broker.py, which looks the account of a call up.
--  Queue: services/trading_cycle_service/executor_queue.py and domain/models/trading_cycle.py. The
--    three passes are `execute_passes`, the worker's round is `worker`. Queue/Order and Failures
--    hold the proofs.
--  Strategy: engine/strategy/schemas.py, engine/regime/__init__.py and engine/scoring/__init__.py.
--  Strategy/Regime, Signals, Scoring: engine/regime/regime.py, engine/signal/trend.py,
--    engine/scoring/scoring.py with engine/math/jit_calculators.py. Strategy/MultiAgent:
--    engine/strategy/multi_agent.py. Strategy/Tactics, with Bull, Bear and Sideways:
--    engine/strategy/tactics and realtime_metrics.py. Strategy/Adaptive:
--    engine/strategy/regime_adaptive.py. Signals/Founded, MultiAgent/Verdicts, Tactics/Fits and the
--    modules Fitting hold the proofs.
--  Risk/Models: engine/risk/manager.py, base.py and models/; Models/Shields.
--  Portfolio: engine/portfolio/portfolio.py. `build_target_portfolio` is `select` (Selection,
--    Replacement), then `target_from` (Weights). Selection/Candidates, Replacement/Swaps and Chosen,
--    Weights/Headings hold lemmas, Results what they give, Handover what the broker makes of it.
--  Backtest/Series, Snapshots, Candles: services/backtesting/memory_cache.py beside the methods of
--    domain/repositories/feature_snapshot_repository.py and candle_repository.py that it stands in
--    for. Series/Slices, Latest and Ranges say what the binary searches find. Snapshots/Table says
--    what the writes leave in the table, Refinement, Listing and Candles/Equivalence compare the
--    caches with the tables, Candles/Sorting holds lemmas on lists in order of time.
--  Backtest/Book, Engine, Report: engine/backtest/engine.py, its state with what opens and closes a
--    position, `run`, and `_generate_report`. Engine/Log, Runs and Report/Counts hold the proofs.
--  Backtest/Positions: the cache of positions in the same file; Positions/Cooldowns and Stops compare
--    it with the table.
--  Cycle: services/trading_cycle_service. Cycle/Views is what a cycle reads of features and positions,
--    Gates and Strategies are strategy_orchestrator.py, from one decision to the loop over symbols,
--    Target and Run are cycle_orchestrator.py, with `run_cycle`, and MarketData is
--    market_data_orchestrator.py. MarketData/Fetched, Gates/Passed, Strategies/Admitted,
--    Target/Fresh, and Outcomes, Agents and Unexecuted of Run hold the proofs.
--  Risk/Limits, Risk/Engine: engine/risk/__init__.py, profiles.py and risk.py.
--  CircuitBreaker: infrastructure/api_client/circuit_breaker.py.
--  Folds: engine/optimization/fold_generator.py.
--  Oms: services/oms/paper_oms.py and interfaces.py.
--  Tests, and the modules Tests elsewhere: concrete runs.
--
-- What is taken as given. Decimals and floats are a parameter, with no NaN and no context precision;
-- the laws in `IsOrdered` are those of exact arithmetic and of rounding to a fixed number of places.
-- The columns of type Numeric(20, 8) are taken to hold what is written. A session sees its own
-- writes. The clock stands still within a call. Features are numbers. pydantic's checks of fields are
-- left out, and so are texts of reasons and messages, but for those that the code reads again, and
-- alerts, which change no table. `dateutil.relativedelta` is a parameter with its growth as a
-- hypothesis; so are the order in which a set lists its members, the format of decimal places,
-- `math.tanh`, and the order of floats where it has to be transitive. `bisect` is taken to count, as
-- it does on a list in order. A strategy is a parameter of the backtest engine, as is what the
-- feature calculator makes of the candles. A time in the caches is in UTC already. An exception in a
-- task of the queue leaves the rows that were written before it. The cycle is a live one. The
-- exchange's client, the feature pipeline and the strategy are its parameters; that a strategy
-- decides on the symbol it is asked about is a hypothesis. The committee of language models gives
-- back the decision that it is asked about, and what it writes is read by nothing here. Rows that a
-- cycle adds to the log, and subscriptions of the websocket client, are left out.
--
-- Fuel. Only the two loops of the fold generator take fuel; two rounds more than there are
-- microseconds up to the end date are enough, since a slide that moves at all moves at least one on.
-- All other loops run over lists.
--
-- What is not modelled: the strategies of a single indicator, bet sizing, the service that runs
-- backtests, optimisation, the indicators behind the features, scheduling, the event-driven service,
-- exchange clients, the LLM committee, reporting, alerting, the HTTP API, the frontend and
-- migrations. The retries of the circuit breaker are the work of `tenacity`: each is one more call of
-- its wrapper. Listings that only serve the API are not modelled, nor are starting and stopping the
-- worker's asyncio task.
pub mod Prelude
pub mod Numbers
pub mod Domain
pub mod Repository
pub mod Paper
pub mod MarketData
pub mod Strategy
pub mod Backtest
pub mod Portfolio
pub mod Queue
pub mod Cycle
pub mod Risk
pub mod Oms
pub mod Folds
pub mod CircuitBreaker
pub mod Tests
