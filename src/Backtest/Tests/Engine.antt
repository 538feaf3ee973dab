-- ===== src/Backtest/Tests/Engine.antt =====
-- A backtest over six snapshots whose strategy always wants to buy.
use crypto_mas.Backtest.Report.Counts.{run-generate_report, opened_trades}
use crypto_mas.Prelude.Int.{ℤ}
use crypto_mas.Backtest.Report.{generate_report}
use crypto_mas.Backtest.Engine.Runs.{Tradable, run-Returns, Flat}
use crypto_mas.Backtest.Tests.{snap}
use crypto_mas.Backtest.Engine.Log.{nothing, Sound, Returns}
use crypto_mas.Prelude.{ℕ, All, arith, length, ◌≡◌, List, [], ◌∷◌, some, none, Option, refl, map}
use crypto_mas.Backtest.Engine.{price_of, run}
use crypto_mas.Backtest.Book.{TradeKind, opening, closing, BacktestEngine}
use crypto_mas.Numbers.Fixed.{fixed, literal}
use crypto_mas.Domain.{FeatureSnapshot}
use crypto_mas.Strategy.{consider_long, TradingDecision}
use crypto_mas.Portfolio.Tests.{decision}

abbrev backtest : BacktestEngine
backtest = record {
  initial_balance = literal 10_000 0;
  fee_rate = literal 5 4;
  slippage_pct = literal 2 2;
  balance = literal 10_000 0;
  positions = [];
  trades = [];
}

abbrev buying : List FeatureSnapshot → Option TradingDecision
buying window = some (decision "BTCUSDT" consider_long 90 90 none)

abbrev later_snaps : List FeatureSnapshot
later_snaps = snap 20 100 ∷ snap 30 100 ∷ snap 40 100 ∷ snap 50 100 ∷ snap 60 120 ∷ []

abbrev kinds : Option BacktestEngine → Option (List TradeKind)
kinds none = none
kinds (some e) = some (map (λ t. t.kind) e.trades)

abbrev reported : Option BacktestEngine → Option (ℕ × ℤ)
reported none = none
reported (some e) = elim (generate_report "BTCUSDT" e) [
  | none ↦ none
  | some r ↦ some (r.total_trades, r.win_rate)
]

-- It buys with the fifth snapshot, and takes its profit and buys again with the sixth; the end closes
-- the second position.
traded_test :
    kinds (run buying "BTCUSDT" (snap 10 100 ∷ later_snaps) backtest)
    ≡ some (opening ∷ closing ∷ opening ∷ closing ∷ [])
unfolding run
traded_test = refl

backtest-Sound : Sound (literal 2 2) backtest
backtest-Sound = record {
  faithful = λ t. nothing;
  priced = λ t h e. absurd (cc);
  same_slippage = refl;
  funded = refl;
}

-- Both trades are counted; the first gains, the second loses on its slippage.
reported_test :
    reported (run buying "BTCUSDT" (snap 10 100 ∷ later_snaps) backtest) ≡ some (2, literal 50 0)
unfolding run generate_report
reported_test = refl

tradable : All (λ y. Tradable (literal 2 2) (price_of y)) (snap 10 100 ∷ later_snaps)
tradable = (
  (refl, refl),
  ((refl, refl), ((refl, refl), ((refl, refl), ((refl, refl), ((refl, refl), tt))))),
)

run-generate_report_example :
    Returns
      (λ done.
        Returns
          (λ r. r.total_trades ≡ length (opened_trades "BTCUSDT" done.trades))
          (generate_report "BTCUSDT" done))
      (run buying "BTCUSDT" (snap 10 100 ∷ later_snaps) backtest)
run-generate_report_example =
    run-generate_report (λ x y z h k. ground arith) (literal 2 2) buying "BTCUSDT" (snap 10 100)
      later_snaps backtest tradable backtest-Sound

run-Returns_example :
    Returns
      (Flat (literal 2 2) buying "BTCUSDT")
      (run buying "BTCUSDT" (snap 10 100 ∷ later_snaps) backtest)
run-Returns_example =
    run-Returns (literal 2 2) buying "BTCUSDT" (snap 10 100) later_snaps backtest tradable
      backtest-Sound
