-- ===== src/Cycle/Target.antt =====
-- services/trading_cycle_service/cycle_orchestrator.py, `TradingCycleService._apply_risk_and_execute`, with the
-- objects that the service is made with.
pub mod Fresh
use crypto_mas.Prelude.{ℕ, Option, none, some, List, [], String}
use crypto_mas.Prelude.Int.{ℤ}
use crypto_mas.Numbers.{Numerics}
use crypto_mas.Domain.{StrategyMode, PortfolioTarget}
use crypto_mas.MarketData.Schemas.{
  Timeframe, one_minute, five_minutes, fifteen_minutes, one_hour, four_hours, one_day, one_week,
  one_month,
}
use crypto_mas.Strategy.{TradingDecision}
use crypto_mas.Portfolio.Selection.{Runtime, PortfolioEngine}
use crypto_mas.Portfolio.Weights.{build_target_portfolio}
use crypto_mas.Risk.Limits.{RiskLimits}
use crypto_mas.Risk.Engine.{assess}
use crypto_mas.Queue.{ExecutionTask}

-- `timeframe.value`
abbrev pub value_of : Timeframe → String
value_of one_minute = "1m"
value_of five_minutes = "5m"
value_of fifteen_minutes = "15m"
value_of one_hour = "1h"
value_of four_hours = "4h"
value_of one_day = "1d"
value_of one_week = "1w"
value_of one_month = "1M"

module _ ⦃n : Numerics⦄ where
  open n use {float_lit}

  pub record TradingCycleService : Type 0 where
    pub exchange : String
    pub strategy_mode : StrategyMode
    pub runtime : Runtime
    pub portfolio_engine : PortfolioEngine
    pub limits : RiskLimits

  -- The target that holds nothing, where the risk engine approves none.
  pub cash_target : PortfolioTarget → ℕ → PortfolioTarget
  cash_target t now = record {
    exchange = t.exchange;
    timeframe = t.timeframe;
    target_positions = [];
    cash_weight = float_lit 1 0;
    gross_exposure = float_lit 0 0;
    created_at = now;
    close_reasons = [];
  }

  unfoldable pub approved_portfolio : RiskLimits → PortfolioTarget → ℕ → PortfolioTarget
  unfolding assess cash_target
  approved_portfolio limits t now = elim (assess limits t).approved_target [
    | none ↦ cash_target t now
    | some approved ↦ approved
  ]

  -- The task that is put; the row of the cycle has its number.
  unfoldable pub apply_risk_and_execute :
      TradingCycleService
      → Timeframe
      → String
      → ℕ
      → List TradingDecision
      → List String
      → ℤ
      → ℕ
      → ExecutionTask
  unfolding build_target_portfolio approved_portfolio
  apply_risk_and_execute b timeframe account cycle_id ds open_positions risk_level now =
      let target =
        build_target_portfolio b.runtime b.portfolio_engine b.exchange (value_of timeframe) ds
          open_positions risk_level now in
      record {
        account_name = account;
        target = approved_portfolio b.limits target now;
        cycle_id = some cycle_id;
        strategy_mode = b.strategy_mode;
      }
