-- ===== src/Oms.antt =====
-- services/oms/interfaces.py and services/oms/paper_oms.py. The exceptions that PaperOMS turns into a
-- rejection are the database's, which the tables here do not raise; messages are left out.
pub mod Orders
use crypto_mas.Prelude.Dict.{assign, find}
use crypto_mas.Prelude.{ℕ, Option, none, some, List, [], ◌∷◌, String, str_eq, if◌then◌else◌}
use crypto_mas.Numbers.{Numerics, ◌⊗◌, nought}
use crypto_mas.Domain.{long, TradeSide, buy, sell, StrategyMode, oms_sell, Position, Store}
use crypto_mas.Repository.Positions.{save, create_open_position, get_open_position, close_position}

pub data OrderStatus : Type 0 where
  pending partially_filled cancelled filled rejected : OrderStatus

module _ ⦃n : Numerics⦄ where
  open n use {Decimal}

  pub record Order : Type 0 where
    pub order_id : String
    pub account_name : String
    pub exchange : String
    pub symbol : String
    pub side : TradeSide
    pub quantity : Decimal
    pub price : Decimal
    pub created_at : ℕ
    pub strategy_mode : Option StrategyMode

  pub record OrderResult : Type 0 where
    pub order_id : String
    pub status : OrderStatus
    pub filled_quantity : Decimal
    pub filled_price : Decimal
    pub commission : Decimal

  -- The dictionaries `_orders` and `_results`, by order number, and the tables.
  pub record PaperOms : Type 0 where
    pub orders : List (String × Order)
    pub results : List (String × OrderResult)
    pub store : Store

  pub rejection : String → OrderResult
  rejection id = record {
    order_id = id;
    status = rejected;
    filled_quantity = nought;
    filled_price = nought;
    commission = nought;
  }

  pub fill_of : Order → Decimal → OrderResult
  fill_of o quantity = record {
    order_id = o.order_id;
    status = filled;
    filled_quantity = quantity;
    filled_price = o.price;
    commission = nought;
  }

  pub execute_buy : Order → Store → OrderResult × Store
  unfolding fill_of
  execute_buy o s =
      let made =
        create_open_position o.account_name o.exchange o.symbol o.quantity o.price
          (o.quantity ⊗ o.price) o.created_at none none o.strategy_mode long s in
      (fill_of o o.quantity, made.1)

  pub execute_sell : Order → Store → OrderResult × Store
  unfolding fill_of rejection
  execute_sell o s = elim (get_open_position o.account_name o.exchange o.symbol s.positions) [
    | none ↦ (rejection o.order_id, s)
    | some p ↦ (fill_of o p.quantity, save (close_position p o.price o.created_at oms_sell) s)
  ]

  pub execute : Order → Store → OrderResult × Store
  unfolding execute_buy execute_sell
  execute o s = elim o.side [ buy ↦ execute_buy o s | sell ↦ execute_sell o s ]

  pub submit_order : Order → PaperOms → OrderResult × PaperOms
  unfolding execute
  submit_order o oms =
      let out = execute o oms.store in
      (
        out.0,
        record {
          orders = assign o.order_id o oms.orders;
          results = assign o.order_id out.0 oms.results;
          store = out.1;
        },
      )

  pub get_order_status : String → PaperOms → OrderResult
  unfolding rejection
  get_order_status id oms = elim (find id oms.results) [ none ↦ rejection id | some r ↦ r ]
