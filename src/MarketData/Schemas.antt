-- ===== src/MarketData/Schemas.antt =====
-- services/market_data_service/schemas.py: candles and timeframes. An exchange stands as its value, a
-- datetime as its number of microseconds.
use crypto_mas.Prelude.{ℕ, Option, String}
use crypto_mas.Numbers.{Numerics}

pub data Timeframe : Type 0 where
  one_minute five_minutes fifteen_minutes one_hour four_hours one_day one_week one_month : Timeframe

module _ ⦃n : Numerics⦄ where
  pub record OhlcvCandle : Type 0 where
    pub exchange : String
    pub symbol : String
    pub open_time : ℕ
    pub close_time : ℕ
    pub opening : n.Decimal
    pub high : n.Decimal
    pub low : n.Decimal
    pub close : n.Decimal
    pub volume : n.Decimal
    pub quote_volume : Option n.Decimal
