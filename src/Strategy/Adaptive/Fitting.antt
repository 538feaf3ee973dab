-- ===== src/Strategy/Adaptive/Fitting.antt =====
-- engine/strategy/regime_adaptive.py: what is known of its decisions.
use crypto_mas.Prelude.{
  ℕ, Bool, true, false, ◌⊎◌, ◌≡◌, Option, none, some, List, String, refl, subst,
}
use crypto_mas.Numbers.{Numerics, float_lt}
use crypto_mas.Domain.{FeatureSnapshot}
use crypto_mas.MarketData.Schemas.{Timeframe}
use crypto_mas.Strategy.{
  MarketRegime, bull_trend, bear_trend, sideways, high_volatility, unknown, TradingDecision,
}
use crypto_mas.Strategy.Regime.{detect, RegimeSnapshot}
use crypto_mas.Strategy.Tactics.{Metrics, Ask, Answer}
use crypto_mas.Strategy.Tactics.Bull.Fitting.{bull_evaluate-Fits}
use crypto_mas.Strategy.Tactics.Bear.Fitting.{bear_evaluate-Fits}
use crypto_mas.Strategy.Tactics.Sideways.Fitting.{sideways_evaluate-Fits}
use crypto_mas.Strategy.Tactics.Fits.{Fits, Yields, least, may}
use crypto_mas.Strategy.Adaptive.{
  Config, attach, evaluate_tactic, ask_of, answer_of, adaptive_decide,
}

module _ ⦃n : Numerics⦄ (format : ℕ → n.Float → String) (metrics : Metrics) (exchange : String)
    (timeframe : Timeframe) (config : Config) where
  -- A decision on the symbol, as the regime of the snapshots allows.
  pub record Suits (symbol : String) (snapshots : List FeatureSnapshot) (opened : Bool)
      (d : TradingDecision) : Type 0 where
    pub found : RegimeSnapshot
    pub detected : detect snapshots ≡ some found
    pub regime : d.regime ≡ some found.regime
    pub own : d.symbol ≡ symbol
    pub allowed : may found.regime opened d.action ≡ true
    pub sure :
        (opened ≡ true)
        ⊎ (float_lt d.confidence (
              least found.regime
                (ask_of format metrics exchange timeframe config found.regime symbol opened))
            ≡ false)
    pub scored : d.final_score ≡ d.confidence

  evaluate_tactic-Fits :
      (regime : MarketRegime) (snapshots : List FeatureSnapshot) (a : Ask)
      → Yields
          (Fits regime a)
          (evaluate_tactic format metrics exchange timeframe config regime snapshots a)
  unfolding evaluate_tactic
  evaluate_tactic-Fits bull_trend snapshots a = bull_evaluate-Fits format metrics snapshots a
  evaluate_tactic-Fits bear_trend snapshots a = bear_evaluate-Fits format metrics snapshots a
  evaluate_tactic-Fits sideways snapshots a = sideways_evaluate-Fits format snapshots a
  evaluate_tactic-Fits high_volatility snapshots a = tt
  evaluate_tactic-Fits unknown snapshots a = tt

  attach-Suits :
      (symbol : String) (snapshots : List FeatureSnapshot) (opened : Bool) (found : RegimeSnapshot)
      (answer : Answer)
      → detect snapshots ≡ some found
      → Yields
          (Fits found.regime
            (ask_of format metrics exchange timeframe config found.regime symbol opened))
          answer
      → Yields (Suits symbol snapshots opened) (attach found.regime answer)
  attach-Suits symbol snapshots opened found none e h = tt
  attach-Suits symbol snapshots opened found (some none) e h = tt
  attach-Suits symbol snapshots opened found (some (some d)) e h = record {
    found = found;
    detected = e;
    regime = refl;
    own = h.own;
    allowed = h.allowed;
    sure = h.sure;
    scored = h.scored;
  }

  answer_of-Suits :
      (symbol : String) (snapshots : List FeatureSnapshot) (opened : Bool)
      (o : Option RegimeSnapshot)
      → detect snapshots ≡ o
      → Yields
          (Suits symbol snapshots opened)
          (answer_of format metrics exchange timeframe config symbol snapshots opened o)
  unfolding answer_of
  answer_of-Suits symbol snapshots opened none e = tt
  answer_of-Suits symbol snapshots opened (some found) e =
      let a = ask_of format metrics exchange timeframe config found.regime symbol opened in
      attach-Suits symbol snapshots opened found
        (evaluate_tactic format metrics exchange timeframe config found.regime snapshots a) e
        (evaluate_tactic-Fits found.regime snapshots a)

  -- A decision of the strategy is on the symbol that it is asked about, and carries the regime that is detected in
  -- the snapshots. It is of a kind that the regime allows: with an open position it closes or holds; with none it
  -- enters long where the market rises, short where it falls, and either way where it does neither; in a market of
  -- high volatility or of an unknown regime there is none. An entry is no less sure than the tactic's settings ask,
  -- and its score is its confidence.
  pub adaptive_decide-Suits :
      (symbol : String) (snapshots : List FeatureSnapshot) (opened : Bool) (d : TradingDecision)
      → adaptive_decide format metrics exchange timeframe config symbol snapshots opened
        ≡ some (some d)
      → Suits symbol snapshots opened d
  unfolding adaptive_decide
  adaptive_decide-Suits symbol snapshots opened d h =
      subst (Yields (Suits symbol snapshots opened)) h
        (answer_of-Suits symbol snapshots opened (detect snapshots) refl)
