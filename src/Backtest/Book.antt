-- ===== src/Backtest/Book.antt =====
-- engine/backtest/engine.py: the engine's state, and how a position is opened and closed. A division of floats
-- by zero raises: the result is then `none`.
use crypto_mas.Prelude.Dict.{assign}
use crypto_mas.Prelude.{ℕ, Option, none, some, List, [], ◌∷◌, ◌++◌, String, str_eq, if◌then◌else◌}
use crypto_mas.Numbers.{divide, ◌>>=◌, Numerics}
use crypto_mas.Domain.{PositionSide, is_long}
use crypto_mas.Strategy.{TradingDecision}
use crypto_mas.Portfolio.Weights.{side_of}

pub data TradeKind : Type 0 where
  opening closing : TradeKind

-- `d.pop(key)`
abbrev pub pop {ℓ} : {A : Type ℓ} → String → List (String × A) → List (String × A)
pop key [] = []
pop key (e ∷ es) = let rest = pop key es in if str_eq e.0 key then rest else e ∷ rest

module _ ⦃n : Numerics⦄ where
  open n use {Float, float_lit, float_add, float_sub, float_mul, float_div, float_le}

  -- The class `Position` of the engine; a trade of the log, with a gain where it closes.
  pub record Holding : Type 0 where
    pub symbol : String
    pub entry_price : Float
    pub quantity : Float
    pub entry_time : ℕ
    pub open_fee : Float
    pub side : PositionSide

  pub record LoggedTrade : Type 0 where
    pub time : ℕ
    pub symbol : String
    pub kind : TradeKind
    pub side : PositionSide
    pub price : Float
    pub quantity : Float
    pub fee : Float
    pub realized_pnl : Option Float
    pub reason : String

  pub record BacktestEngine : Type 0 where
    pub initial_balance : Float
    pub fee_rate : Float
    pub slippage_pct : Float
    pub balance : Float
    pub positions : List (String × Holding)
    pub trades : List LoggedTrade

  abbrev pub raised_by : BacktestEngine → Float → Float
  raised_by e price = float_mul price (float_add (float_lit 1 0) e.slippage_pct)

  abbrev pub lowered_by : BacktestEngine → Float → Float
  lowered_by e price = float_mul price (float_sub (float_lit 1 0) e.slippage_pct)

  -- What an order pays on opening and gets on closing.
  abbrev pub open_price : BacktestEngine → PositionSide → Float → Float
  open_price e side price = if is_long side then raised_by e price else lowered_by e price

  abbrev pub exit_price : BacktestEngine → PositionSide → Float → Float
  exit_price e side price = if is_long side then lowered_by e price else raised_by e price

  -- `_close_position`, of a position that has been found.
  unfoldable pub close_holding :
      String → Holding → Float → ℕ → String → BacktestEngine → BacktestEngine
  close_holding symbol h price now reason e =
      let execution_price = exit_price e h.side price in
      let entry_notional = float_mul h.quantity h.entry_price in
      let notional = float_mul h.quantity execution_price in
      let fee = float_mul notional e.fee_rate in
      let pnl =
        if is_long h.side
        then float_sub (float_sub (float_sub notional fee) entry_notional) h.open_fee
        else float_sub (float_sub (float_sub entry_notional notional) fee) h.open_fee in
      let back = if is_long h.side then float_sub notional fee else float_add entry_notional pnl in
      let trade : LoggedTrade = record {
        time = now;
        symbol = symbol;
        kind = closing;
        side = h.side;
        price = execution_price;
        quantity = h.quantity;
        fee = fee;
        realized_pnl = some pnl;
        reason = reason;
      } in
      record e {
        balance = float_add e.balance back;
        positions = pop symbol e.positions;
        trades = e.trades ++ trade ∷ [];
      }

  -- `if symbol not in self.positions`, of a decision to enter.
  unfoldable pub open_holding : TradingDecision → Float → ℕ → BacktestEngine → Option BacktestEngine
  open_holding d price now e =
      let side = side_of d.action in
      let amount = float_mul e.balance (float_lit 10 2) in
      let execution_price = open_price e side price in
      let fee = float_mul amount e.fee_rate in
      divide amount execution_price >>= λ quantity.
      let trade : LoggedTrade = record {
        time = now;
        symbol = d.symbol;
        kind = opening;
        side = side;
        price = execution_price;
        quantity = quantity;
        fee = fee;
        realized_pnl = none;
        reason = d.reason;
      } in
      let held : Holding = record {
        symbol = d.symbol;
        entry_price = execution_price;
        quantity = quantity;
        entry_time = now;
        open_fee = fee;
        side = side;
      } in
      some (record e {
        balance = float_sub e.balance (float_add amount fee);
        positions = assign d.symbol held e.positions;
        trades = e.trades ++ trade ∷ [];
      })
