-- ===== src/Paper/Mark/Levels.antt =====
-- services/paper_trading/mark_to_market.py: where the stop of a position trails to, and when a price has reached
-- a stop or a target, described apart from the code.
use crypto_mas.Prelude.{
  ◌≡◌, ◌⊎◌, refl, sym, subst, ◌∙◌, inl, inr, Bool, true, false, ◌&&◌, Option, none, some,
  if◌then◌else◌, Bool-cases, Option-cases,
}
use crypto_mas.Numbers.{Numerics, ◌⊕◌, ◌⊖◌, ◌⊗◌, ◌≤?◌, ◌<?◌, one, float_lt}
use crypto_mas.Domain.{PositionSide, is_long, Position}
use crypto_mas.Repository.Positions.{update_stop_loss}
use crypto_mas.Paper.Calculator.{RiskCalculator, sl_pct, friction}
use crypto_mas.Paper.Mark.{
  base_pct, tightened, trailing_pct, is_trailed, potential_stop, trail, is_stopped, takes_profit,
}

module _ ⦃n : Numerics⦄ where
  open n use {Decimal, Float, lit, quantize, quotient, to_decimal, to_float, float_lit}

  -- A price is at or past a stop, or a target; where none is set it is not.
  abbrev pub Stopped : PositionSide → Option Decimal → Decimal → Type 0
  Stopped side stop price =
      (sl : Decimal) × (stop ≡ some sl)
      × ((if is_long side then price ≤? sl else sl ≤? price) ≡ true)

  abbrev pub Profits : PositionSide → Option Decimal → Decimal → Type 0
  Profits side target price =
      (tp : Decimal) × (target ≡ some tp)
      × ((if is_long side then tp ≤? price else price ≤? tp) ≡ true)

  -- How far the stop trails, as a part of the price, before gains tighten it: twice a positive ATR, or the
  -- rate of the strategy's mode.
  pub data Distance (c : RiskCalculator) (price : Decimal) (atr : Option Float)
      : Decimal → Type 0 where
    by_atr :
        (a : Float)
        → atr ≡ some a
        → float_lt (float_lit 0 0) a ≡ true
        → Distance c price atr
            (to_decimal (n.float_mul (n.float_div a (to_float price)) (float_lit 20 1)))
    by_mode :
        ((a : Float) → atr ≡ some a → float_lt (float_lit 0 0) a ≡ false)
        → Distance c price atr (sl_pct c.strategy_mode)

  -- A gain of more than 2 % halves it, and one of more than 1 % takes a quarter off.
  pub data Eased (gain base : Decimal) : Decimal → Type 0 where
    halved : lit 2 2 <? gain ≡ true → Eased gain base (base ⊗ lit 5 1)
    eased : lit 2 2 <? gain ≡ false → lit 1 2 <? gain ≡ true → Eased gain base (base ⊗ lit 75 2)
    whole : lit 2 2 <? gain ≡ false → lit 1 2 <? gain ≡ false → Eased gain base base

  -- A level is nearer to the market than the stop, or the first stop; and the price has earned what a round
  -- trip costs.
  abbrev pub Better : PositionSide → Option Decimal → Decimal → Type 0
  Better side old level =
      (old ≡ none)
      ⊎ ((sl : Decimal) × (old ≡ some sl)
          × ((if is_long side then sl <? level else level <? sl) ≡ true))

  abbrev pub Earned : RiskCalculator → PositionSide → Decimal → Decimal → Type 0
  Earned c side entry price =
      let costs = (c.commission_rate ⊕ c.slippage_rate) ⊗ lit 2 0 in
      (if is_long side then entry ⊗ (one ⊕ costs) <? price else price <? entry ⊗ (one ⊖ costs))
      ≡ true

  pub data Moves (c : RiskCalculator) (side : PositionSide) (entry : Decimal) (old : Option Decimal)
      (price level : Decimal) : Option Decimal → Type 0 where
    moves :
        Better side old level
        → Earned c side entry price
        → Moves c side entry old price level (some (quantize level))
    stays :
        ¬ (Better side old level × Earned c side entry price)
        → Moves c side entry old price level old

  -- The stop at a price, of a position whose stop was `old`.
  pub record Trailed (c : RiskCalculator) (side : PositionSide) (entry : Decimal)
      (old : Option Decimal) (price : Decimal) (atr : Option Float) (stop : Option Decimal)
      : Type 0 where
    pub gain : Decimal
    pub gained : quotient (if is_long side then price ⊖ entry else entry ⊖ price) entry ≡ some gain
    pub base : Decimal
    pub distance : Distance c price atr base
    pub pct : Decimal
    pub tight : Eased gain base pct
    pub moved :
        Moves c side entry old price
          (if is_long side then quantize (price ⊗ (one ⊖ pct)) else quantize (price ⊗ (one ⊕ pct)))
          stop

  and_left : (a b : Bool) → (a && b) ≡ true → a ≡ true
  and_left true b h = refl
  and_left false b h = absurd (cc)

  and_right : (a b : Bool) → (a && b) ≡ true → b ≡ true
  and_right true b h = h
  and_right false b h = absurd (cc)

  both_true : (a b : Bool) → (a && b) ≡ false → a ≡ true → b ≡ true → ⊥
  both_true true b h k m = absurd (cc)
  both_true false b h k m = absurd (cc)

  base_pct-Distance :
      (c : RiskCalculator) (price : Decimal) (atr : Option Float)
      → Distance c price atr (base_pct c price atr)
  unfolding base_pct
  base_pct-Distance c price none = by_mode (λ a e. absurd (cc))
  base_pct-Distance c price (some a) = elim (Bool-cases (float_lt (float_lit 0 0) a)) [
    | inl e ↦ rw (e, base_pct) (by_atr a refl e)
    | inr e ↦ rw (e, base_pct) (by_mode (λ x k. let same : a ≡ x = cc in rw (← same) e))
  ]

  tightened-Eased : (base gain : Decimal) → Eased gain base (tightened base gain)
  unfolding tightened
  tightened-Eased base gain = elim (Bool-cases (lit 2 2 <? gain)) [
    | inl e ↦ rw e (halved e)
    | inr e ↦ elim (Bool-cases (lit 1 2 <? gain)) [
      | inl k ↦ rw (e, k) (eased e k)
      | inr k ↦ rw (e, k) (whole e k)
    ]
  ]

  betters-Better :
      (side : PositionSide) (level : Decimal) (old : Option Decimal)
      → (elim old [ none ↦ true | some sl ↦ if is_long side then sl <? level else level <? sl ])
        ≡ true
      → Better side old level
  betters-Better side level none h = inl refl
  betters-Better side level (some sl) h = inr (sl, refl, h)

  Better-complete :
      (side : PositionSide) (level : Decimal) (old : Option Decimal)
      → Better side old level
      → (elim old [ none ↦ true | some sl ↦ if is_long side then sl <? level else level <? sl ])
        ≡ true
  Better-complete side level none h = refl
  Better-complete side level (some x) (inl e) = absurd (cc)
  Better-complete side level (some x) (inr (sl, e, h)) = let same : x ≡ sl = cc in rw same h

  -- The code chooses the factor and the comparison apart.
  chosen_twice :
      (b : Bool) (entry price x y : Decimal)
      → let even = entry ⊗ (if b then x else y) in
        (if b then even <? price else price <? even)
        ≡ (if b then entry ⊗ x <? price else price <? entry ⊗ y)
  chosen_twice true entry price x y = refl
  chosen_twice false entry price x y = refl

  module _ (c : RiskCalculator) (p : Position) (price : Decimal) where
    -- The level of the code's stop is the written one, and it moves as written.
    pub trail-Moves :
        (pct : Decimal)
        → (stop : Option Decimal) × (trail c p price pct ≡ record p { stop_loss_price = stop })
          × Moves c p.side p.entry_price p.stop_loss_price price
              (if is_long p.side
                then quantize (price ⊗ (one ⊖ pct))
                else quantize (price ⊗ (one ⊕ pct)))
              stop
    unfolding trail is_trailed update_stop_loss friction potential_stop
    trail-Moves pct =
        let level : Decimal =
          if is_long p.side
          then quantize (price ⊗ (one ⊖ pct))
          else quantize (price ⊗ (one ⊕ pct)) in
        let costs = (c.commission_rate ⊕ c.slippage_rate) ⊗ lit 2 0 in
        let earns = chosen_twice (is_long p.side) p.entry_price price (one ⊕ costs) (one ⊖ costs) in
        elim (Bool-cases (is_trailed c p price pct)) [
          | inl e ↦ (
            some (quantize level),
            rw e refl,
            moves (betters-Better p.side level p.stop_loss_price (and_left _ _ e))
                (sym earns ∙ and_right _ _ e),
          )
          | inr e ↦ (
            p.stop_loss_price,
            rw e refl,
            stays (λ (better, earned).
                both_true _ _ e (Better-complete p.side level p.stop_loss_price better)
                  (earns ∙ earned)),
          )
        ]

  module _ (p : Position) (price : Decimal) where
    pub is_stopped-Stopped : is_stopped p price ≡ true → Stopped p.side p.stop_loss_price price
    unfolding is_stopped
    is_stopped-Stopped h = elim (Option-cases p.stop_loss_price) [
      | inl e ↦ absurd (cc)
      | inr (sl, e) ↦ (sl, e, rw e at h)
    ]

    pub Stopped-is_stopped : Stopped p.side p.stop_loss_price price → is_stopped p price ≡ true
    unfolding is_stopped
    Stopped-is_stopped (sl, e, h) = rw (e, h) refl

    pub takes_profit-Profits :
        takes_profit p price ≡ true → Profits p.side p.take_profit_price price
    unfolding takes_profit
    takes_profit-Profits h = elim (Option-cases p.take_profit_price) [
      | inl e ↦ absurd (cc)
      | inr (tp, e) ↦ (tp, e, rw e at h)
    ]

    pub Profits-takes_profit :
        Profits p.side p.take_profit_price price → takes_profit p price ≡ true
    unfolding takes_profit
    Profits-takes_profit (tp, e, h) = rw (e, h) refl

  -- What the code computes trails as written, of a position that is brought to the price.
  pub trailing_pct-Eased :
      (c : RiskCalculator) (p : Position) (price : Decimal) (atr : Option Float) (pct : Decimal)
      → trailing_pct c p price atr ≡ some pct
      → (gain : Decimal) × (quotient
            (if is_long p.side then price ⊖ p.entry_price else p.entry_price ⊖ price)
            p.entry_price
          ≡ some gain)
        × (base : Decimal) × Distance c price atr base
        × Eased gain base pct
  unfolding trailing_pct
  trailing_pct-Eased c p price atr pct h =
      let gain = if is_long p.side then price ⊖ p.entry_price else p.entry_price ⊖ price in
      let base = base_pct c price atr in
      elim (Option-cases (quotient gain p.entry_price)) [
        | inl e ↦ (let h1 = rw (e, trailing_pct) at h in absurd (cc))
        | inr (ratio, e) ↦
            let h1 = rw (e, trailing_pct) at h in
            let same : tightened base ratio ≡ pct = cc in
            (
              ratio,
              e,
              base,
              base_pct-Distance c price atr,
              subst (Eased ratio base) same (tightened-Eased base ratio),
            )
      ]
