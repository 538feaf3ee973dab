-- ===== src/Risk/Models/Shields.antt =====
-- engine/risk/manager.py: what the chain of shields does to a decision.
use crypto_mas.Strategy.{
  avoid, hold, close_short, close_long, consider_short, consider_long, is_hold, is_consider,
  MarketRegime, is_consider_short, is_consider_long, TradingDecision, DecisionAction,
}
use crypto_mas.Risk.Models.{
  is_strong_bull, filter_known, is_strong_bear, regime_shield, htf_portfolio, btc_crash, last,
  override, is_high_volatility, evaluate_regime, RiskModel, evaluate_decision, filter_latest,
  evaluate, filter_regime, Context, evaluate_htf_portfolio, evaluate_btc_crash, filter_trend,
}
use crypto_mas.Prelude.{
  some, none, Option, any, [], if◌then◌else◌, Option-cases, refl, inr, ◌||◌, ◌∷◌, not, inl, ◌&&◌,
  false, ◌⊎◌, List, true, and_true, Bool-cases, String, Bool, ◌≡◌,
}
use crypto_mas.Numbers.{Numerics}

module _ ⦃n : Numerics⦄ where
  -- A decision as it was, or one to enter that has been put on hold.
  abbrev Shielded : TradingDecision → TradingDecision → Type 0
  Shielded d r =
      (r ≡ d) ⊎ ((is_consider d.action ≡ true) × ((text : String) × (r ≡ override text d)))

  overrides :
      (text : String) (d : TradingDecision)
      → is_consider d.action ≡ true
      → Shielded d (override text d)
  overrides text d h = inr (h, (text, refl))

  consider_of_long : (a : DecisionAction) → is_consider_long a ≡ true → is_consider a ≡ true
  consider_of_long consider_long h = refl
  consider_of_long consider_short h = cc
  consider_of_long close_long h = cc
  consider_of_long close_short h = cc
  consider_of_long hold h = cc
  consider_of_long avoid h = cc

  consider_of_short : (a : DecisionAction) → is_consider_short a ≡ true → is_consider a ≡ true
  consider_of_short consider_long h = cc
  consider_of_short consider_short h = refl
  consider_of_short close_long h = cc
  consider_of_short close_short h = cc
  consider_of_short hold h = cc
  consider_of_short avoid h = cc

  btc_crash-Shielded : (c : Context) (d : TradingDecision) → Shielded d (evaluate_btc_crash c d)
  unfolding evaluate_btc_crash
  btc_crash-Shielded c d = elim (Bool-cases (not c.use_btc_shield || not c.btc_is_crashing)) [
    | inl e ↦ rw e (inl refl)
    | inr e ↦ rw e (elim (Bool-cases (is_consider_long d.action)) [
      | inl h ↦ rw h (overrides _ d (consider_of_long _ h))
      | inr h ↦ rw h (inl refl)
    ])
  ]

  if-Shielded :
      (b : Bool) (text : String) (d r : TradingDecision)
      → (b ≡ true → is_consider d.action ≡ true)
      → Shielded d r
      → Shielded d (if b then override text d else r)
  if-Shielded true text d r h k = overrides text d (h refl)
  if-Shielded false text d r h k = k

  trend-Shielded :
      (close ema_20 ema_50 roc : n.Float) (d : TradingDecision)
      → Shielded d (filter_trend close ema_20 ema_50 roc d)
  unfolding filter_trend
  trend-Shielded close ema_20 ema_50 roc d =
      let bear = is_strong_bear close ema_20 ema_50 roc in
      let bull = is_strong_bull close ema_20 ema_50 roc in
      if-Shielded (is_consider_long d.action && bear) _ d _
        (λ h. consider_of_long d.action (and_true (is_consider_long d.action) bear h).0)
        (if-Shielded (is_consider_short d.action && bull) _ d d
          (λ h. consider_of_short d.action (and_true (is_consider_short d.action) bull h).0)
          (inl refl))

  latest-Shielded :
      (close ema_20 ema_50 roc : Option n.Float) (d : TradingDecision)
      → Shielded d (filter_latest close ema_20 ema_50 roc d)
  unfolding filter_latest
  latest-Shielded (some a) (some b) (some e) (some r) d = trend-Shielded a b e r d
  latest-Shielded (some a) none e f d = inl refl
  latest-Shielded (some a) (some b) none f d = inl refl
  latest-Shielded (some a) (some b) (some e) none d = inl refl
  latest-Shielded none b e f d = inl refl

  htf-Shielded : (c : Context) (d : TradingDecision) → Shielded d (evaluate_htf_portfolio c d)
  unfolding evaluate_htf_portfolio
  htf-Shielded c d = elim (Bool-cases (not c.use_htf_shield)) [
    | inl e ↦ rw e (inl refl)
    | inr e ↦ rw e (elim (Option-cases (last c.htf_snapshots)) [
      | inl o ↦ rw o (inl refl)
      | inr (s, o) ↦
          rw o (
            latest-Shielded s.features.close s.features.ema_20 s.features.ema_50 s.features.roc_14
              d)
    ])
  ]

  regime-Shielded : (r : MarketRegime) (d : TradingDecision) → Shielded d (filter_regime r d)
  unfolding filter_regime
  regime-Shielded r d = elim (Bool-cases (is_high_volatility r)) [
    | inl e ↦ rw e (if-Shielded _ _ d d (λ h. h) (inl refl))
    | inr e ↦ rw e (if-Shielded _ _ d d (λ h. (and_true _ _ (and_true _ _ h).1).1) (inl refl))
  ]

  known-Shielded : (r : Option MarketRegime) (d : TradingDecision) → Shielded d (filter_known r d)
  unfolding filter_known
  known-Shielded none d = inl refl
  known-Shielded (some r) d = regime-Shielded r d

  evaluate-Shielded :
      (m : RiskModel) (c : Context) (d : TradingDecision) → Shielded d (evaluate m c d)
  unfolding evaluate evaluate_regime
  evaluate-Shielded btc_crash c d = btc_crash-Shielded c d
  evaluate-Shielded htf_portfolio c d = htf-Shielded c d
  evaluate-Shielded regime_shield c d = elim (Bool-cases (not c.use_regime_shield)) [
    | inl e ↦ rw e (inl refl)
    | inr e ↦ rw e (known-Shielded d.regime d)
  ]

  not_both : (a : DecisionAction) → (is_consider a && is_hold a) ≡ false
  not_both consider_long = refl
  not_both consider_short = refl
  not_both close_long = refl
  not_both close_short = refl
  not_both hold = refl
  not_both avoid = refl

  -- A decision that is not one to enter passes every shield.
  passes :
      (ms : List RiskModel) (c : Context) (d : TradingDecision)
      → is_consider d.action ≡ false
      → evaluate_decision ms c d ≡ d
  unfolding evaluate_decision
  passes [] c d h = refl
  passes (m ∷ ms) c d h = elim (evaluate-Shielded m c d) [
    | inl e ↦ rw e (passes ms c d h)
    | inr (k, _) ↦ absurd (cc)
  ]

  -- The shield alone would put the decision on hold.
  abbrev pub blocks : Context → TradingDecision → RiskModel → Bool
  blocks c d m = is_consider d.action && is_hold (evaluate m c d).action

  pub evaluate_decision-blocks :
      (ms : List RiskModel) (c : Context) (d : TradingDecision)
      → (text : String) × (evaluate_decision ms c d
          ≡ (if any (blocks c d) ms then override text d else d))
  unfolding evaluate_decision override
  evaluate_decision-blocks [] c d = ("", refl)
  evaluate_decision-blocks (m ∷ ms) c d = elim (evaluate-Shielded m c d) [
    | inl e ↦ rw (e, not_both d.action) (evaluate_decision-blocks ms c d)
    | inr (k, (text, e)) ↦ rw (e, k) (text, passes ms c (override text d) refl)
  ]
