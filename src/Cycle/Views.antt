-- ===== src/Cycle/Views.antt =====
-- services/trading_cycle_service/strategy_orchestrator.py: what it asks of the tables of features and positions,
-- as interfaces. The tables and their stand-ins in memory both fill them.
use crypto_mas.Prelude.{ℕ, Bool, Option, List, String}
use crypto_mas.Numbers.{Numerics}
use crypto_mas.Domain.{FeatureSnapshot, Position}
use crypto_mas.MarketData.Schemas.{
  five_minutes, one_month, one_week, one_day, four_hours, one_hour, fifteen_minutes, one_minute,
  Timeframe,
}
use crypto_mas.Repository.Positions.{
  get_open_position_symbols, get_recent_stop_loss_symbols, get_whipsaw_cooldown_symbols, minutes,
}

-- services/trading_cycle_service/utils.py
abbrev pub get_timedelta : Timeframe → ℕ
get_timedelta one_minute = minutes 1
get_timedelta fifteen_minutes = minutes 15
get_timedelta one_hour = minutes 60
get_timedelta four_hours = minutes 240
get_timedelta one_day = minutes 1440
get_timedelta one_week = minutes 10_080
get_timedelta one_month = minutes 43_200
get_timedelta five_minutes = minutes 60

-- What is known of the positions at the time of a cycle, for its account and exchange.
pub record PositionView : Type 0 where
  pub open_symbols : List String
  pub recent_stop_loss : ℕ → List String
  pub whipsaw : ℕ → ℕ → List String

module _ ⦃n : Numerics⦄ where
  -- The feature pipeline and the repository of snapshots, of one exchange, over a state. The pipeline
  -- says whether it returned.
  pub record FeatureStore (S : Type 0) : Type 0 where
    pub list_by_symbol : S → String → Timeframe → Option ℕ → ℕ → List FeatureSnapshot
    pub calculate_and_store : String → Timeframe → Option ℕ → S → Bool × S

  abbrev pub view_of_table : String → String → ℕ → List Position → PositionView
  view_of_table account exchange now ps = record {
    open_symbols = get_open_position_symbols account exchange ps;
    recent_stop_loss = λ cooldown. get_recent_stop_loss_symbols account exchange now cooldown ps;
    whipsaw = λ stops cooldown. get_whipsaw_cooldown_symbols account exchange now stops cooldown ps;
  }
