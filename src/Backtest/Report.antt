-- ===== src/Backtest/Report.antt =====
-- engine/backtest/engine.py, `_generate_report`. The type "SELL", which no trade has, is left out. A profit
-- factor of infinity is `none`. A gain that is missing reads as 0.0: only trades that close are read,
-- which have one.
pub mod Counts
use crypto_mas.Prelude.{
  ℕ, Bool, true, false, ◌&&◌, Option, none, some, List, [], ◌∷◌, String, str_eq, ◌==◌,
  if◌then◌else◌, filter, length,
}
use crypto_mas.Numbers.{◌>>=◌, divide, float_abs, Numerics, float_lt}
use crypto_mas.Backtest.Book.{TradeKind, opening, closing, LoggedTrade, BacktestEngine}

abbrev pub is_closing : TradeKind → Bool
is_closing closing = true
is_closing opening = false

module _ ⦃n : Numerics⦄ where
  open n use {Float, float_lit, float_add, float_sub, float_mul, float_div}

  pub record Report : Type 0 where
    pub final_balance : Float
    pub total_pnl : Float
    pub pnl_pct : Float
    pub total_trades : ℕ
    pub win_rate : Float
    pub profit_factor : Option Float
    pub max_drawdown_pct : Float

  unfoldable pub closed_trades : String → List LoggedTrade → List LoggedTrade
  closed_trades symbol ts = filter (λ t. is_closing t.kind && str_eq t.symbol symbol) ts

  -- `t.get('realized_pnl', 0.0)`
  abbrev pub pnl_of : LoggedTrade → Float
  pnl_of t = elim t.realized_pnl [ none ↦ float_lit 0 0 | some x ↦ x ]

  abbrev pub is_winning : LoggedTrade → Bool
  is_winning t = float_lt (float_lit 0 0) (pnl_of t)

  abbrev pub is_losing : LoggedTrade → Bool
  is_losing t = n.float_le (pnl_of t) (float_lit 0 0)

  sum_pnl : Float → List LoggedTrade → Float
  sum_pnl total [] = total
  sum_pnl total (t ∷ ts) = sum_pnl (float_add total (pnl_of t)) ts

  -- The greatest fall from a peak of the equity, trade by trade.
  unfoldable pub drawdown : List LoggedTrade → Float → Float → Float → Option Float
  drawdown [] equity peak max_dd = some max_dd
  drawdown (t ∷ ts) equity peak max_dd =
      let equity' = float_add equity (pnl_of t) in
      let peak' = if float_lt peak equity' then equity' else peak in
      let rest =
        λ (dd : Float). drawdown ts equity' peak' (if float_lt max_dd dd then dd else max_dd) in
      divide (float_sub peak' equity') peak' >>= rest

  pub profit_factor_of : Float → Float → Option Float
  profit_factor_of profit loss =
      if float_lt (float_lit 0 0) loss
      then some (float_div profit loss)
      else if float_lt (float_lit 0 0) profit
      then none
      else some (float_lit 0 0)

  pub win_rate_of : ℕ → ℕ → Float
  win_rate_of wins all =
      if all == 0
      then float_lit 0 0
      else float_mul (float_div (float_lit wins 0) (float_lit all 0)) (float_lit 100 0)

  unfoldable pub generate_report : String → BacktestEngine → Option Report
  unfolding closed_trades sum_pnl drawdown profit_factor_of win_rate_of
  generate_report symbol e =
      let closed = closed_trades symbol e.trades in
      let profit = sum_pnl (float_lit 0 0) (filter is_winning closed) in
      let loss = float_abs (sum_pnl (float_lit 0 0) (filter is_losing closed)) in
      let total = float_sub profit loss in
      drawdown closed e.initial_balance e.initial_balance (float_lit 0 0) >>= λ dd.
      divide total e.initial_balance >>= λ share. some (record {
        final_balance = float_add e.initial_balance total;
        total_pnl = total;
        pnl_pct = float_mul share (float_lit 100 0);
        total_trades = length closed;
        win_rate = win_rate_of (length (filter is_winning closed)) (length closed);
        profit_factor = profit_factor_of profit loss;
        max_drawdown_pct = float_mul dd (float_lit 100 0);
      })
