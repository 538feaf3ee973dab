-- ===== src/Paper/Calculator.antt =====
-- services/paper_trading/risk_calculator.py. `Decimal(str(c))` of a float constant `c` is the
-- literal that `c` is written as.
pub mod Bounds
use mathlib.Core.Option
use crypto_mas.Prelude.{refl, ◌≡◌, Bool, false, not, ◌&&◌, ◌||◌, Option, none, some, if◌then◌else◌}
use crypto_mas.Numbers.{Numerics, ◌⊕◌, ◌⊖◌, ◌⊗◌, ◌≤?◌, ◌<?◌, nought, one, lesser, float_lt}
use crypto_mas.Domain.{PositionSide, is_long, StrategyMode, scalping, hodl, FeatureSnapshot}

module _ ⦃n : Numerics⦄ where
  open n use {Decimal, Float, lit, quantize, quotient, to_decimal, to_float, float_lit}

  pub record RiskCalculator : Type 0 where
    pub strategy_mode : StrategyMode
    pub commission_rate : Decimal
    pub slippage_rate : Decimal
    pub dynamic_slippage : Bool

  -- `RiskCalculator(strategy_mode=mode)`: 0.0002 for both rates.
  unfoldable pub new : StrategyMode → RiskCalculator
  new mode = record {
    strategy_mode = mode;
    commission_rate = lit 2 4;
    slippage_rate = lit 2 4;
    dynamic_slippage = false;
  }

  abbrev pub sl_pct : StrategyMode → Decimal
  sl_pct scalping = lit 20 3
  sl_pct hodl = lit 5 2
  sl_pct _ = lit 3 2

  abbrev pub tp_pct : StrategyMode → Decimal
  tp_pct scalping = lit 24 3
  tp_pct hodl = lit 12 2
  tp_pct _ = lit 6 2

  abbrev pub atr_sl_mult : StrategyMode → Decimal
  atr_sl_mult scalping = lit 15 1
  atr_sl_mult hodl = lit 3 0
  atr_sl_mult _ = lit 2 0

  abbrev pub atr_tp_mult : StrategyMode → Decimal
  atr_tp_mult scalping = lit 3 0
  atr_tp_mult hodl = lit 6 0
  atr_tp_mult _ = lit 4 0

  -- A number that is set and not zero.
  abbrev pub truthy : Option Float → Option Float
  truthy none = none
  truthy (some x) =
      if n.float_le x (float_lit 0 0) && n.float_le (float_lit 0 0) x then none else some x

  -- `atr_val and atr_val > 0`
  abbrev pub positive : Option Float → Option Float
  positive none = none
  positive (some x) = if float_lt (float_lit 0 0) x then some x else none

  -- The slippage for an ATR of `ratio` times the price.
  pub volatile_slippage : Decimal → Decimal → Decimal → Decimal
  volatile_slippage base vol_mult ratio =
      if lit 2 2 <? ratio
      then quantize ((base ⊕ lesser (ratio ⊗ lit 5 2) (lit 3 3)) ⊗ vol_mult)
      else quantize (base ⊗ vol_mult)

  -- `none` is the exception of a division by zero, which the guard on the price rules out.
  pub calculate_effective_slippage : RiskCalculator → Decimal → Option Float → Bool → Option Decimal
  unfolding volatile_slippage
  calculate_effective_slippage c price atr is_high =
      if not c.dynamic_slippage || price ≤? nought
      then some c.slippage_rate
      else elim (positive atr) [
        | none ↦ some (quantize (c.slippage_rate ⊗ vol_mult))
        | some a ↦
            Option.map (volatile_slippage c.slippage_rate vol_mult) (quotient (to_decimal a) price)
      ]
    where
      vol_mult : Decimal
      vol_mult = if is_high then lit 15 1 else lit 10 1

  unfoldable pub calculate_target_notional : Float → Decimal → Decimal
  calculate_target_notional weight equity = lesser (to_decimal weight ⊗ equity) (equity ⊗ lit 100 2)

  pub calculate_fee : RiskCalculator → Decimal → Decimal
  calculate_fee c notional = quantize (notional ⊗ c.commission_rate)

  -- The total cost and the fee.
  unfoldable pub calculate_total_cost : RiskCalculator → Decimal → Decimal × Decimal
  calculate_total_cost c notional =
      let fee = quantize (notional ⊗ c.commission_rate) in (notional ⊕ fee, fee)

  -- A price moved against the buyer and against the seller by the slippage.
  abbrev pub raised_by : Decimal → Decimal → Decimal
  raised_by price rate = quantize (price ⊗ (one ⊕ rate))

  abbrev pub lowered_by : Decimal → Decimal → Decimal
  lowered_by price rate = quantize (price ⊗ (one ⊖ rate))

  unfoldable pub calculate_execution_price :
      RiskCalculator → Decimal → PositionSide → Option Float → Bool → Option Decimal
  unfolding calculate_effective_slippage
  calculate_execution_price c price side atr is_high =
      Option.map (λ slip. if is_long side then raised_by price slip else lowered_by price slip)
        (calculate_effective_slippage c price atr is_high)

  unfoldable pub calculate_exit_price :
      RiskCalculator → Decimal → PositionSide → Option Float → Bool → Option Decimal
  unfolding calculate_effective_slippage
  calculate_exit_price c price side atr is_high =
      Option.map (λ slip. if is_long side then lowered_by price slip else raised_by price slip)
        (calculate_effective_slippage c price atr is_high)

  unfoldable pub calculate_quantity : Decimal → Decimal → Option Decimal
  calculate_quantity notional execution_price =
      Option.map quantize (quotient notional execution_price)

  -- The commission and the slippage of both legs.
  unfoldable pub friction : RiskCalculator → Decimal
  friction c = (c.commission_rate ⊕ c.slippage_rate) ⊗ lit 2 0

  abbrev multiplier : Option Float → Decimal → Decimal
  multiplier override default = elim (truthy override) [ none ↦ default | some x ↦ to_decimal x ]

  -- The stop and the target by the ATR.
  pub atr_levels :
      RiskCalculator
      → Decimal
      → PositionSide
      → Float
      → Option Float
      → Option Float
      → Decimal × Decimal
  atr_levels c price side atr override_sl override_tp =
      let down = to_decimal atr ⊗ multiplier override_sl (atr_sl_mult c.strategy_mode) in
      let up = to_decimal atr ⊗ multiplier override_tp (atr_tp_mult c.strategy_mode) in
      if is_long side
      then (quantize (price ⊖ down), quantize (price ⊕ up))
      else (quantize (price ⊕ down), quantize (price ⊖ up))

  -- The stop and the target by fixed percentages.
  pub pct_levels : RiskCalculator → Decimal → PositionSide → Decimal × Decimal
  unfolding friction
  pct_levels c price side =
      let down = sl_pct c.strategy_mode in
      let up = tp_pct c.strategy_mode ⊕ friction c in
      if is_long side
      then (lowered_by price down, raised_by price up)
      else (raised_by price down, lowered_by price up)

  -- The stop-loss price and the take-profit price.
  pub calculate_sl_tp :
      RiskCalculator
      → Decimal
      → PositionSide
      → Option Float
      → Option Float
      → Option Float
      → Decimal × Decimal
  unfolding atr_levels pct_levels
  calculate_sl_tp c price side atr override_sl override_tp = elim (positive atr) [
    | some a ↦ atr_levels c price side a override_sl override_tp
    | none ↦ pct_levels c price side
  ]

  -- With no ATR the levels are fixed percentages, whatever the overrides are.
  pub calculate_sl_tp-none :
      (c : RiskCalculator) (price : Decimal) (side : PositionSide) (sl tp : Option Float)
      → calculate_sl_tp c price side none sl tp ≡ pct_levels c price side
  unfolding calculate_sl_tp
  calculate_sl_tp-none c price side sl tp = refl

  -- The gain, and in percent of the entry. `none` is the exception of an entry price of zero.
  unfoldable pub calculate_pnl :
      Decimal → Decimal → Decimal → PositionSide → Option (Decimal × Float)
  calculate_pnl entry exit quantity side =
      let gain = if is_long side then exit ⊖ entry else entry ⊖ exit in
      Option.map (λ ratio. (gain ⊗ quantity, to_float (ratio ⊗ lit 100 0))) (quotient gain entry)

  -- A feature is a number, so its text always reads as a Decimal.
  unfoldable pub extract_close_price : Option FeatureSnapshot → Option Decimal
  extract_close_price none = none
  extract_close_price (some s) = Option.map to_decimal s.features.close

  -- The bar's range in parts of its close, where both ends are known.
  abbrev wide : Option Float → Option Float → Float → Bool
  wide (some high) (some low) c = float_lt (float_lit 8 2) (n.float_div (n.float_sub high low) c)
  wide _ _ c = false

  abbrev thin : Option Float → Float → Bool
  thin none c = false
  thin (some volume) c = float_lt (n.float_mul volume c) (float_lit 1000 0)

  -- A range above 8 % of the close, or less than 1000 dollars traded.
  unfoldable pub is_thin_liquidity_or_excessive_spread : Option FeatureSnapshot → Bool
  is_thin_liquidity_or_excessive_spread none = false
  is_thin_liquidity_or_excessive_spread (some s) = elim (positive s.features.close) [
    | none ↦ false
    | some c ↦ wide s.features.high s.features.low c || thin s.features.volume c
  ]
