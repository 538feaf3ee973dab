-- ===== src/Backtest/Engine.antt =====
-- engine/backtest/engine.py. `run` takes the snapshots that the feature calculator makes of the candles, and
-- the strategy's `decide`, which sees the last five. A price that a snapshot lacks is zero.
pub mod Log
pub mod Runs
use crypto_mas.Backtest.Book.{Holding, BacktestEngine, close_holding, open_holding}
use crypto_mas.Prelude.Dict.{assign, find, has}
use crypto_mas.Prelude.{
  ℕ, Bool, true, false, not, ◌&&◌, Option, none, some, List, [], ◌∷◌, ◌++◌, String, str_eq, ltb,
  if◌then◌else◌, filter, length,
}
use crypto_mas.Numbers.{◌>>=◌, divide, Numerics, float_lt, float_min, float_max}
use crypto_mas.Domain.{PositionSide, long, short, is_long, FeatureSnapshot}
use crypto_mas.Strategy.{
  DecisionAction, is_consider, is_consider_long, is_consider_short, TradingDecision,
}
use crypto_mas.Portfolio.Weights.{side_of}
use crypto_mas.Risk.Models.{last}

module _ ⦃n : Numerics⦄ where
  open n use {Float, float_lit, float_add, float_sub, float_mul, float_div, float_le}

  -- The take-profit and stop-loss shares.
  pub levels : Option Float → Float → Float × Float
  levels atr price = elim atr [
    | none ↦ (float_lit 2 2, float_lit 1 2)
    | some a ↦
        if float_lt (float_lit 0 0) a && float_lt (float_lit 0 0) price
        then (let sl =
              float_max (float_lit 5 3)
                (float_min (float_lit 5 2) (float_mul (float_div a price) (float_lit 15 1))) in
            (
              float_max (float_lit 1 2) (float_min (float_lit 10 2) (float_mul sl (float_lit 2 0))),
              sl,
            ))
        else (float_lit 2 2, float_lit 1 2)
  ]

  pub reverses : PositionSide → DecisionAction → Bool
  reverses side action = if is_long side then is_consider_short action else is_consider_long action

  -- Why a position is closed, if it is.
  pub exit_reason : Float × Float → PositionSide → DecisionAction → Float → Option String
  unfolding reverses
  exit_reason (tp, sl) side action pnl_pct =
      if float_le tp pnl_pct
      then some "Take Profit"
      else if float_le pnl_pct (float_sub (float_lit 0 0) sl)
      then some "Stop Loss"
      else if reverses side action
      then some "Strategy Reversal"
      else none

  pub gain_pct : Holding → Float → Option Float
  gain_pct h price =
      if is_long h.side
      then divide (float_sub price h.entry_price) h.entry_price
      else divide (float_sub h.entry_price price) h.entry_price

  leave : TradingDecision → Float → ℕ → Holding → Option String → BacktestEngine → BacktestEngine
  unfolding close_holding
  leave d price now h none e = e
  leave d price now h (some reason) e = close_holding d.symbol h price now reason e

  -- The first half of `_process_decision`: the open position, where there is one.
  pub manage :
      TradingDecision → Float → ℕ → Option Float → Holding → BacktestEngine → Option BacktestEngine
  unfolding levels exit_reason gain_pct leave
  manage d price now atr h e = gain_pct h price >>= λ pct.
      some (leave d price now h (exit_reason (levels atr price) h.side d.action pct) e)

  -- The second half: a new position, where there is none by now.
  pub enter : TradingDecision → Float → ℕ → BacktestEngine → Option BacktestEngine
  unfolding open_holding
  enter d price now e = elim (find d.symbol e.positions) [
    | some h ↦ some e
    | none ↦ if is_consider d.action then open_holding d price now e else some e
  ]

  pub process_decision :
      TradingDecision → Float → ℕ → Option Float → BacktestEngine → Option BacktestEngine
  unfolding manage enter
  process_decision d price now atr e =
      (elim (find d.symbol e.positions) [ none ↦ some e | some h ↦ manage d price now atr h e ])
      >>= enter d price now

  -- `features_json.get('close', 0.0)`
  abbrev pub price_of : FeatureSnapshot → Float
  price_of s = elim s.features.close [ none ↦ float_lit 0 0 | some x ↦ x ]

  -- The window after a snapshot: the oldest of six is dropped.
  pub slide : List FeatureSnapshot → FeatureSnapshot → List FeatureSnapshot
  slide window s =
      let longer = window ++ s ∷ [] in if ltb 5 (length longer) then rest_of longer else longer
    where
      rest_of : List FeatureSnapshot → List FeatureSnapshot
      rest_of [] = []
      rest_of (x ∷ xs) = xs

  module _ (decide : List FeatureSnapshot → Option TradingDecision) where
    -- One round of the loop, with the window that it sees.
    pub step : List FeatureSnapshot → FeatureSnapshot → BacktestEngine → Option BacktestEngine
    unfolding process_decision
    step window s e = if ltb (length window) 5 then some e else (elim (decide window) [
      | none ↦ some e
      | some d ↦ process_decision d (price_of s) s.timestamp s.features.atr_14 e
    ])

    pub loop : List FeatureSnapshot → List FeatureSnapshot → BacktestEngine → Option BacktestEngine
    unfolding step slide
    loop window [] e = some e
    loop window (s ∷ ss) e =
        let seen = slide window s in
        let rest = λ (later : BacktestEngine). loop seen ss later in step seen s e >>= rest

    -- What is still open in the symbol is closed at the last price.
    pub finish : String → List FeatureSnapshot → BacktestEngine → BacktestEngine
    unfolding close_holding
    finish symbol snapshots e = elim (last snapshots) [
      | none ↦ e
      | some s ↦ elim (find symbol e.positions) [
        | none ↦ e
        | some h ↦ close_holding symbol h (price_of s) s.timestamp "End of Backtest" e
      ]
    ]

    -- `run`, without its report.
    unfoldable pub run : String → List FeatureSnapshot → BacktestEngine → Option BacktestEngine
    unfolding loop finish
    run symbol snapshots e = loop [] snapshots e >>= λ done. some (finish symbol snapshots done)
