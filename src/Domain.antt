-- ===== src/Domain.antt =====
-- The rows and value objects of the paper-trading engine: domain/value_objects/enums.py,
-- domain/models, services/paper_trading/schemas.py and engine/portfolio/__init__.py under
-- src/crypto_mas. A datetime is its number of microseconds. Free texts (reasons, messages) are
-- left out, but for those that the code reads again.
use crypto_mas.Prelude.{ℕ, Bool, true, false, Option, none, some, List, String}
use crypto_mas.Numbers.{Numerics}

pub data PositionSide : Type 0 where
  long short : PositionSide

pub data PositionStatus : Type 0 where
  opened closed : PositionStatus

pub data TradeSide : Type 0 where
  buy sell : TradeSide

pub data StrategyMode : Type 0 where
  scalping swing hodl other : StrategyMode

-- The texts that `close_reason` is set to. `portfolio_engine` and `strategy` carry the fee behind
-- them in the source, so no strategy's text is "STOP_LOSS".
pub data CloseReason : Type 0 where
  stop_loss take_profit signal oms_sell portfolio_engine : CloseReason
  strategy : String → CloseReason

pub data Level : Type 0 where
  info warning warn success : Level

pub data Stage : Type 0 where
  paper_broker trailing_sl sl_tp : Stage

pub data ExecutionStatus : Type 0 where
  executed skipped rejected : ExecutionStatus

pub data Reason : Type 0 where
  already_open stop_loss_cooldown whipsaw_cooldown no_price thin_liquidity no_notional : Reason
  no_cash filled still_in_target not_in_target stopped took_profit marked : Reason

abbrev pub is_long : PositionSide → Bool
is_long long = true
is_long short = false

abbrev pub same_side : PositionSide → PositionSide → Bool
same_side long long = true
same_side short short = true
same_side _ _ = false

abbrev pub is_opened : PositionStatus → Bool
is_opened opened = true
is_opened closed = false

abbrev pub is_stop_loss : Option CloseReason → Bool
is_stop_loss (some stop_loss) = true
is_stop_loss _ = false

module _ ⦃n : Numerics⦄ where
  open n use {Decimal, Float}

  pub record Position : Type 0 where
    pub id : ℕ
    pub account_name : String
    pub exchange : String
    pub symbol : String
    pub side : PositionSide
    pub status : PositionStatus
    pub quantity : Decimal
    pub entry_price : Decimal
    pub current_price : Decimal
    pub notional_value : Decimal
    pub unrealized_pnl : Decimal
    pub realized_pnl : Decimal
    pub stop_loss_price : Option Decimal
    pub take_profit_price : Option Decimal
    pub strategy_mode : Option StrategyMode
    pub opened_at : ℕ
    pub closed_at : Option ℕ
    pub close_reason : Option CloseReason

  pub record Trade : Type 0 where
    pub id : ℕ
    pub account_name : String
    pub exchange : String
    pub symbol : String
    pub side : TradeSide
    pub quantity : Decimal
    pub price : Decimal
    pub notional : Decimal
    pub realized_pnl : Decimal
    pub position_id : Option ℕ
    pub cycle_id : Option ℕ
    pub executed_at : ℕ

  -- A row of the table `orders`; its status is always "FILLED" and it asks for no price.
  pub record OrderRow : Type 0 where
    pub id : ℕ
    pub account_name : String
    pub exchange : String
    pub symbol : String
    pub side : TradeSide
    pub requested_quantity : Decimal
    pub filled_quantity : Decimal
    pub filled_price : Decimal
    pub trade_id : ℕ

  pub record PaperAccount : Type 0 where
    pub name : String
    pub exchange : String
    pub base_currency : String
    pub initial_balance : Decimal
    pub cash_balance : Decimal
    pub equity : Decimal

  -- The features that the program reads from `features_json`.
  pub record Features : Type 0 where
    pub close : Option Float
    pub high : Option Float
    pub low : Option Float
    pub volume : Option Float
    pub atr_14 : Option Float
    pub ema_20 : Option Float
    pub ema_50 : Option Float
    pub rsi_14 : Option Float
    pub roc_14 : Option Float
    pub adx_14 : Option Float
    pub stoch_rsi_k : Option Float
    pub rvol : Option Float
    pub macd : Option Float
    pub macd_signal : Option Float
    pub macd_hist : Option Float
    pub bb_upper : Option Float
    pub bb_middle : Option Float
    pub bb_lower : Option Float

  abbrev pub no_features : Features
  no_features = record {
    close = none;
    high = none;
    low = none;
    volume = none;
    atr_14 = none;
    ema_20 = none;
    ema_50 = none;
    rsi_14 = none;
    roc_14 = none;
    adx_14 = none;
    stoch_rsi_k = none;
    rvol = none;
    macd = none;
    macd_signal = none;
    macd_hist = none;
    bb_upper = none;
    bb_middle = none;
    bb_lower = none;
  }

  pub record FeatureSnapshot : Type 0 where
    pub exchange : String
    pub symbol : String
    pub timeframe : String
    pub timestamp : ℕ
    pub features : Features

  pub record TargetPosition : Type 0 where
    pub symbol : String
    pub side : PositionSide
    pub target_weight : Float
    pub confidence : Float
    pub final_score : Float
    pub sl_mult_override : Option Float
    pub tp_mult_override : Option Float

  -- `close_reasons` is `metadata["close_reasons"]`, of a target; the two overrides are what is read of a
  -- target position's metadata.
  pub record PortfolioTarget : Type 0 where
    pub exchange : String
    pub timeframe : String
    pub target_positions : List TargetPosition
    pub cash_weight : Float
    pub gross_exposure : Float
    pub created_at : ℕ
    pub close_reasons : List (String × String)

  pub record PaperExecutionItem : Type 0 where
    pub symbol : String
    pub side : TradeSide
    pub status : ExecutionStatus
    pub target_weight : Float
    pub notional : Float
    pub price : Option Float
    pub quantity : Option Float
    pub reason : Reason

  pub record PaperExecutionReport : Type 0 where
    pub account_name : String
    pub exchange : String
    pub starting_cash : Float
    pub ending_cash : Float
    pub starting_equity : Float
    pub ending_equity : Float
    pub executed : List PaperExecutionItem
    pub skipped : List PaperExecutionItem
    pub created_at : ℕ

pub record ExecutionLog : Type 0 where
  pub account_name : String
  pub cycle_id : Option ℕ
  pub level : Level
  pub stage : Stage
  pub created_at : ℕ

module _ ⦃n : Numerics⦄ where
  -- The tables, as a session sees them. The next key of a table stands beside it.
  pub record Store : Type 0 where
    pub accounts : List PaperAccount
    pub positions : List Position
    pub next_position : ℕ
    pub trades : List Trade
    pub next_trade : ℕ
    pub orders : List OrderRow
    pub next_order : ℕ
    pub logs : List ExecutionLog
    pub snapshots : List FeatureSnapshot
