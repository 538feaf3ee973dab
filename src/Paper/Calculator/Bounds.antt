-- ===== src/Paper/Calculator/Bounds.antt =====
-- How the prices of `RiskCalculator` lie to the price they come from.
use crypto_mas.Prelude.{
  none, ◌||◌, not, ◌≡◌, refl, subst, inl, inr, Bool, true, false, Option, some, arith,
  if◌then◌else◌, Bool-cases, Option-cases,
}
use crypto_mas.Numbers.{Numerics, IsOrdered, ◌⊕◌, ◌⊖◌, ◌⊗◌, ◌≤?◌, ◌<?◌, nought, one, lesser}
use crypto_mas.Domain.{PositionSide, is_long, StrategyMode, scalping, swing, hodl, other}
use crypto_mas.Paper.Calculator.{
  RiskCalculator, volatile_slippage, calculate_effective_slippage, calculate_execution_price,
  calculate_exit_price, raised_by, lowered_by, friction, pct_levels, sl_pct, tp_pct, positive,
}

module _ ⦃n : Numerics⦄ where
  open n use {Decimal, Float, lit, quantize, quotient, to_decimal}

  -- `a <= b` for a long position, `b <= a` for a short one.
  abbrev pub ahead : PositionSide → Decimal → Decimal → Bool
  ahead side a b = if is_long side then a ≤? b else b ≤? a

  module _ (laws : IsOrdered) where
    open laws use {
      le_total, le_trans, quantize_mono, quantize_nought, le-add, sub-le, mul_nonneg, mul_mono,
      mul_one, lit_nonneg,
    }

    add_nonneg :
        (a b : Decimal) → nought ≤? a ≡ true → nought ≤? b ≡ true → nought ≤? (a ⊕ b) ≡ true
    add_nonneg a b h k = le_trans nought a (a ⊕ b) h (le-add a b k)

    quantize_nonneg : (a : Decimal) → nought ≤? a ≡ true → nought ≤? quantize a ≡ true
    quantize_nonneg a h =
        subst (λ z. z ≤? quantize a ≡ true) quantize_nought (quantize_mono nought a h)

    pub le-raised_by :
        (price rate : Decimal)
        → nought ≤? price ≡ true
        → nought ≤? rate ≡ true
        → quantize price ≤? raised_by price rate ≡ true
    le-raised_by price rate h k = quantize_mono price (price ⊗ (one ⊕ rate)) (
        subst (λ z. z ≤? (price ⊗ (one ⊕ rate)) ≡ true) (mul_one price)
          (mul_mono price one (one ⊕ rate) h (le-add one rate k)))

    pub lowered_by-le :
        (price rate : Decimal)
        → nought ≤? price ≡ true
        → nought ≤? rate ≡ true
        → lowered_by price rate ≤? quantize price ≡ true
    lowered_by-le price rate h k = quantize_mono (price ⊗ (one ⊖ rate)) price (
        subst (λ z. (price ⊗ (one ⊖ rate)) ≤? z ≡ true) (mul_one price)
          (mul_mono price (one ⊖ rate) one h (sub-le one rate k)))

    bump_nonneg :
        (ratio : Decimal)
        → lit 2 2 <? ratio ≡ true
        → nought ≤? lesser (ratio ⊗ lit 5 2) (lit 3 3) ≡ true
    bump_nonneg ratio h = ground (
      arith,
      le_total ratio (lit 2 2),
      le_trans nought (lit 2 2) ratio (lit_nonneg 2 2),
      mul_nonneg ratio (lit 5 2),
      lit_nonneg 5 2,
      lit_nonneg 3 3,
    )

    volatile_slippage_nonneg :
        (base mult ratio : Decimal)
        → nought ≤? base ≡ true
        → nought ≤? mult ≡ true
        → nought ≤? volatile_slippage base mult ratio ≡ true
    unfolding volatile_slippage
    volatile_slippage_nonneg base mult ratio h k = elim (Bool-cases (lit 2 2 <? ratio)) [
      | inr e ↦ rw e (quantize_nonneg _ (mul_nonneg base mult h k))
      | inl e ↦
          rw e (quantize_nonneg _ (mul_nonneg _ mult (add_nonneg base _ h (bump_nonneg ratio e)) k))
    ]

    mult_nonneg : (high : Bool) → nought ≤? (if high then lit 15 1 else lit 10 1) ≡ true
    mult_nonneg true = lit_nonneg 15 1
    mult_nonneg false = lit_nonneg 10 1

    effective_slippage_nonneg :
        (c : RiskCalculator) (price : Decimal) (atr : Option Float) (high : Bool) (slip : Decimal)
        → nought ≤? c.slippage_rate ≡ true
        → calculate_effective_slippage c price atr high ≡ some slip
        → nought ≤? slip ≡ true
    unfolding calculate_effective_slippage
    effective_slippage_nonneg c price atr high slip h e =
        let mult : Decimal = if high then lit 15 1 else lit 10 1 in
        elim (Bool-cases (not c.dynamic_slippage || price ≤? nought)) [
          | inl static ↦ ground arith
          | inr dynamic ↦ elim (Option-cases (positive atr)) [
            | inl k ↦ ground (
              arith,
              quantize_nonneg (c.slippage_rate ⊗ mult),
              mul_nonneg c.slippage_rate mult h (mult_nonneg high),
            )
            | inr (a, k) ↦ elim (Option-cases (quotient (to_decimal a) price)) [
              | inl m ↦ ground arith
              | inr (ratio, m) ↦
                  ground (
                    arith,
                    volatile_slippage_nonneg c.slippage_rate mult ratio h (mult_nonneg high),
                  )
            ]
          ]
        ]

    -- With a price and a slippage rate that are not negative, and whatever the volatility: an order that
    -- opens a long position pays at least the price, quantized, and one that closes it gets at most
    -- that; for a short position the one that opens it gets at most the price, and the one that closes
    -- it pays at least that.
    pub slippage_adverse :
        (c : RiskCalculator) (price : Decimal) (side : PositionSide) (atr : Option Float)
        (high : Bool) (x y : Decimal)
        → nought ≤? price ≡ true
        → nought ≤? c.slippage_rate ≡ true
        → calculate_execution_price c price side atr high ≡ some x
        → calculate_exit_price c price side atr high ≡ some y
        → (ahead side (quantize price) x ≡ true) × (ahead side y (quantize price) ≡ true)
    unfolding calculate_execution_price calculate_exit_price
    slippage_adverse c price side atr high x y hp hs ex ey =
        elim (Option-cases (calculate_effective_slippage c price atr high)) [
          | inl k ↦ ground arith
          | inr (slip, k) ↦
              let hslip = effective_slippage_nonneg c price atr high slip hs k in
              ground (arith, le-raised_by price slip hp hslip, lowered_by-le price slip hp hslip)
        ]

    sl_pct_nonneg : (mode : StrategyMode) → nought ≤? sl_pct mode ≡ true
    sl_pct_nonneg scalping = lit_nonneg 20 3
    sl_pct_nonneg swing = lit_nonneg 3 2
    sl_pct_nonneg hodl = lit_nonneg 5 2
    sl_pct_nonneg other = lit_nonneg 3 2

    tp_pct_nonneg : (mode : StrategyMode) → nought ≤? tp_pct mode ≡ true
    tp_pct_nonneg scalping = lit_nonneg 24 3
    tp_pct_nonneg swing = lit_nonneg 6 2
    tp_pct_nonneg hodl = lit_nonneg 12 2
    tp_pct_nonneg other = lit_nonneg 6 2

    friction_nonneg :
        (c : RiskCalculator)
        → nought ≤? c.commission_rate ≡ true
        → nought ≤? c.slippage_rate ≡ true
        → nought ≤? friction c ≡ true
    unfolding friction
    friction_nonneg c h k =
        mul_nonneg _ (lit 2 0) (add_nonneg c.commission_rate c.slippage_rate h k) (lit_nonneg 2 0)

    -- With rates and a price that are not negative, the price, quantized, lies between the stop and the
    -- target that fixed percentages give: the stop is below and the target above for a long position,
    -- the other way round for a short one.
    pub pct_levels-ahead :
        (c : RiskCalculator) (price : Decimal) (side : PositionSide)
        → nought ≤? price ≡ true
        → nought ≤? c.commission_rate ≡ true
        → nought ≤? c.slippage_rate ≡ true
        → let (stop, target) = pct_levels c price side in
          (ahead side stop (quantize price) ≡ true) × (ahead side (quantize price) target ≡ true)
    unfolding pct_levels
    pct_levels-ahead c price side hp hc hs =
        let down = sl_pct_nonneg c.strategy_mode in
        let up =
          add_nonneg (tp_pct c.strategy_mode) (friction c) (tp_pct_nonneg c.strategy_mode)
            (friction_nonneg c hc hs) in
        ground (
          arith,
          le-raised_by price (sl_pct c.strategy_mode) hp down,
          lowered_by-le price (sl_pct c.strategy_mode) hp down,
          le-raised_by price (tp_pct c.strategy_mode ⊕ friction c) hp up,
          lowered_by-le price (tp_pct c.strategy_mode ⊕ friction c) hp up,
        )

  -- With no ATR there is no division.
  pub calculate_exit_price-none :
      (c : RiskCalculator) (price : Decimal) (side : PositionSide) (high : Bool)
      → (x : Decimal) × (calculate_exit_price c price side none high ≡ some x)
  unfolding calculate_exit_price calculate_effective_slippage
  calculate_exit_price-none c price side high =
      elim (Bool-cases (not c.dynamic_slippage || price ≤? nought)) [
        | inl e ↦ rw e (_, refl)
        | inr e ↦ rw e (_, refl)
      ]

  pub calculate_execution_price-none :
      (c : RiskCalculator) (price : Decimal) (side : PositionSide) (high : Bool)
      → (x : Decimal) × (calculate_execution_price c price side none high ≡ some x)
  unfolding calculate_execution_price calculate_effective_slippage
  calculate_execution_price-none c price side high =
      elim (Bool-cases (not c.dynamic_slippage || price ≤? nought)) [
        | inl e ↦ rw e (_, refl)
        | inr e ↦ rw e (_, refl)
      ]
