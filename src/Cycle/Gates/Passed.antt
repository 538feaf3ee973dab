-- ===== src/Cycle/Gates/Passed.antt =====
-- services/trading_cycle_service/strategy_orchestrator.py: what is known of a decision to enter that has passed.
use crypto_mas.Numbers.{Numerics}
use crypto_mas.Prelude.{
  ℕ, some, [], ◌∷◌, ◌||◌, sym, ap, ◌∙◌, subst, inl, inr, Bool-cases, ◌&&◌, Option, if◌then◌else◌,
  any, Bool, String, ◌≡◌, refl, false, true, not,
}
use crypto_mas.Risk.Models.Shields.{evaluate_decision-blocks, blocks}
use crypto_mas.Risk.Models.{
  override, evaluate_decision, Context, btc_crash, htf_portfolio, regime_shield,
}
use crypto_mas.Domain.{Features}
use crypto_mas.Prelude.Dict.{contains}
use crypto_mas.Cycle.Views.{PositionView}
use crypto_mas.Cycle.Gates.{
  gates, gate_risk, gate_long, gate_entry, gate_overbought, gate_downtrend, put_on_hold, shields,
  is_overbought, is_deep_downtrend, reverts, is_whipsawed,
}
use crypto_mas.Strategy.{
  is_close, is_hold, DecisionAction, consider_long, consider_short, close_long, close_short, hold,
  avoid, TradingDecision, is_consider, is_consider_long, MarketRegime, bull_trend, bear_trend,
}

-- How many stops within how many minutes keep a symbol from being entered.
abbrev pub too_many : Option MarketRegime → ℕ × ℕ
too_many (some bull_trend) = (3, 720)
too_many (some bear_trend) = (2, 1440)
too_many _ = (2, 2880)

module _ ⦃n : Numerics⦄ where
  -- The symbol is free to be entered.
  pub record Free (v : PositionView) (symbol : String) (regime : Option MarketRegime) : Type 0 where
    pub closed : contains symbol v.open_symbols ≡ false
    pub rested : contains symbol (v.recent_stop_loss 120) ≡ false
    pub steady : contains symbol (v.whipsaw (too_many regime).0 (too_many regime).1) ≡ false

  -- A decision to enter that comes out of a test is the one that it lets through.
  unheld :
      (b : Bool) (text : String) (d r : TradingDecision)
      → is_consider (if b then put_on_hold text d else r).action ≡ true
      → (b ≡ false) × ((if b then put_on_hold text d else r) ≡ r)
  unfolding put_on_hold
  unheld true text d r h = absurd (cc)
  unheld false text d r h = (refl, refl)

  gate_entry-Free :
      (v : PositionView) (symbol : String) (d : TradingDecision)
      → is_consider (gate_entry v symbol d).action ≡ true
      → (gate_entry v symbol d ≡ d) × Free v symbol d.regime
  unfolding gate_entry
  gate_entry-Free v symbol d h = elim (Bool-cases (is_consider d.action)) [
    | inr other ↦ (let h1 = rw (other, gate_entry) at h in absurd (cc))
    | inl enters ↦
        let h1 = rw (enters, gate_entry) at h in
        let a = unheld (contains symbol v.open_symbols) _ d _ h1 in
        let h2 = subst (λ r. is_consider r.action ≡ true) a.1 h1 in
        let b = unheld (contains symbol (v.recent_stop_loss 120)) _ d _ h2 in
        let h3 = subst (λ r. is_consider r.action ≡ true) b.1 h2 in
        let w = unheld (is_whipsawed v symbol d.regime) _ d d h3 in
        (
          rw (enters, gate_entry) (a.1 ∙ b.1 ∙ w.1),
          record { closed = a.0; rested = b.0; steady = w.0 },
        )
  ]

  no_entry : (a : DecisionAction) → (is_hold a || is_close a) ≡ true → is_consider a ≡ false
  no_entry consider_long q = cc
  no_entry consider_short q = cc
  no_entry close_long q = refl
  no_entry close_short q = refl
  no_entry hold q = refl
  no_entry avoid q = refl

  unblocked_of :
      (b : Bool) (text : String) (d r : TradingDecision)
      → r ≡ (if b then override text d else d)
      → is_consider r.action ≡ true
      → (r ≡ d) × (b ≡ false)
  unfolding override
  unblocked_of true text d r e h =
      let h1 = subst (λ x. is_consider x.action ≡ true) e h in absurd (cc)
  unblocked_of false text d r e h = (e, refl)

  gate_risk-passed :
      (c : Context) (d : TradingDecision)
      → is_consider (gate_risk c d).action ≡ true
      → (gate_risk c d ≡ d) × (any (blocks c d) shields ≡ false)
  unfolding gate_risk
  gate_risk-passed c d h = elim (Bool-cases (is_hold d.action || is_close d.action)) [
    | inl q ↦
        let h1 : is_consider d.action ≡ true = rw (q, gate_risk) at h in
        let no = no_entry d.action q in absurd (cc)
    | inr q ↦
        let (text, e) = evaluate_decision-blocks shields c d in
        let e1 : gate_risk c d ≡ evaluate_decision shields c d = rw (q, gate_risk) refl in
        unblocked_of (any (blocks c d) shields) text d (gate_risk c d) (e1 ∙ e) h
  ]

  -- A decision to enter that has passed is the strategy's own, in a free symbol; no shield alone would
  -- have blocked it, and one to buy was not overbought.
  pub record Passes (v : PositionView) (c : Context) (symbol : String) (f : Features)
      (d : TradingDecision) : Type 0 where
    pub free : Free v symbol d.regime
    pub unblocked : any (blocks c d) (btc_crash ∷ htf_portfolio ∷ regime_shield ∷ []) ≡ false
    pub fair : (is_consider_long d.action && is_overbought f) ≡ false

  module _ (one_place : n.Float → String) where
    gate_long-passed :
        (strategy_name : String) (f : Features) (d : TradingDecision)
        → is_consider (gate_long one_place strategy_name f d).action ≡ true
        → (gate_long one_place strategy_name f d ≡ d)
          × ((is_consider_long d.action && is_overbought f) ≡ false)
    unfolding gate_long gate_downtrend gate_overbought
    gate_long-passed strategy_name f d h = elim (Bool-cases (is_consider_long d.action)) [
      | inr other ↦ rw (other, gate_long) (refl, refl)
      | inl buys ↦
          let h1 = rw (buys, gate_long) at h in
          let a =
            unheld (not (reverts strategy_name) && is_deep_downtrend f) _
              (gate_overbought one_place f d) (gate_overbought one_place f d) h1 in
          let h2 = subst (λ r. is_consider r.action ≡ true) a.1 h1 in
          let b = unheld (is_overbought f) _ d d h2 in rw (buys, gate_long) (a.1 ∙ b.1, b.0)
    ]

    pub gates-Passes :
        (v : PositionView) (strategy_name : String) (c : Context) (symbol : String) (f : Features)
        (d : TradingDecision)
        → is_consider (gates one_place v strategy_name c symbol f d).action ≡ true
        → (gates one_place v strategy_name c symbol f d ≡ d) × Passes v c symbol f d
    unfolding gates
    gates-Passes v strategy_name c symbol f d h =
        let entered = gate_entry v symbol d in
        let bought = gate_long one_place strategy_name f entered in
        let (e2, unblocked) = gate_risk-passed c bought h in
        let (e1, fair) =
          gate_long-passed strategy_name f entered
            (subst (λ r. is_consider r.action ≡ true) e2 h) in
        let (e0, free) =
          gate_entry-Free v symbol d (subst (λ r. is_consider r.action ≡ true) (e2 ∙ e1) h) in
        (
          e2 ∙ e1 ∙ e0,
          record {
            free = free;
            unblocked = ap (λ r. any (blocks c r) shields) (sym (e1 ∙ e0)) ∙ unblocked;
            fair = ap (λ r. is_consider_long r.action && is_overbought f) (sym e0) ∙ fair;
          },
        )
