-- ===== src/Strategy/MultiAgent/Verdicts.antt =====
-- engine/strategy/multi_agent.py: what is known of its decisions.
use crypto_mas.Prelude.{
  Bool, true, false, ◌&&◌, Option, none, some, List, String, ◌≡◌, ◌⊎◌, inl, inr, refl, subst,
  if◌then◌else◌, sym,
}
use crypto_mas.Prelude.Int.{ℤ}
use crypto_mas.Numbers.{Numerics, ◌>>=◌}
use crypto_mas.Domain.{FeatureSnapshot}
use crypto_mas.Risk.Models.{last, is_high_volatility}
use crypto_mas.Portfolio.Selection.{is_bear, is_bull}
use crypto_mas.Cycle.Gates.{is_avoid}
use crypto_mas.Strategy.{
  DecisionAction, MarketRegime, avoid, hold, consider_long, consider_short, is_consider_long,
  is_consider_short, is_close, TradingDecision,
}
use crypto_mas.Strategy.Regime.{RegimeSnapshot, detect}
use crypto_mas.Strategy.Signals.{
  SignalDirection, upward, downward, neutral, TradingSignal, TrendInputs, trend_inputs, is_bullish,
  is_bearish, signal_of, generate_from, generate,
}
use crypto_mas.Strategy.Signals.Founded.{Gets, is_upward, is_downward, Founded, signal_of-Founded}
use crypto_mas.Strategy.Scoring.{score}
use crypto_mas.Strategy.MultiAgent.{
  threshold, raised, decide_action, MultiAgent, decision_on, judge, judge_signal,
  multi_agent_decide,
}

-- What holds of both branches holds of the choice.
choose :
    {A : Type 0} (P : A → Type 0) (b : Bool) (m k : A)
    → (b ≡ true → P m)
    → (b ≡ false → P k)
    → P (if b then m else k)
choose P true m k h l = h refl
choose P false m k h l = l refl

-- A signal that is founded, and an action that is chosen by it.
both_hold :
    {A : Type 0} (P R : A → Type 0) (Q : Type 0) (u v : Bool)
    → (u ≡ false) ⊎ ((f : A) × P f × R f)
    → (v ≡ false) ⊎ ((u ≡ true) × Q)
    → (v ≡ false) ⊎ ((f : A) × P f × R f × Q)
both_hold P R Q u v h (inl k) = inl k
both_hold P R Q u v (inr (f, p, r)) (inr (k, q)) = inr (f, p, r, q)
both_hold P R Q u v (inl h) (inr (k, q)) = absurd (cc)

module _ ⦃n : Numerics⦄ where
  open n use {Float, float_le}

  -- What the action says of the direction, the score and the regime.
  record Chosen (direction : SignalDirection) (final_score : Float) (regime : MarketRegime)
      (risk_level : ℤ) (shield : Bool) (action : DecisionAction) : Type 0 where
    pub avoids : is_avoid action ≡ (shield && is_high_volatility regime)
    pub stays : is_close action ≡ false
    pub long :
        (is_consider_long action ≡ false)
        ⊎ ((is_upward direction ≡ true)
            × (float_le (raised (shield && is_bear regime) (threshold risk_level)) final_score
                ≡ true))
    pub short :
        (is_consider_short action ≡ false)
        ⊎ ((is_downward direction ≡ true)
            × (float_le (raised (shield && is_bull regime) (threshold risk_level)) final_score
                ≡ true))

  decide_action-Chosen :
      (direction : SignalDirection) (final_score : Float) (regime : MarketRegime) (risk_level : ℤ)
      (shield : Bool)
      → Chosen direction final_score regime risk_level shield
          (decide_action direction final_score regime risk_level shield)
  unfolding decide_action
  decide_action-Chosen upward final_score regime risk_level shield =
      let fits = Chosen upward final_score regime risk_level shield in
      choose fits (shield && is_high_volatility regime) avoid _
        (λ k. record { avoids = sym k; stays = refl; long = inl refl; short = inl refl })
        (λ k.
          choose fits
            (float_le (raised (shield && is_bear regime) (threshold risk_level)) final_score)
            consider_long hold
            (λ l. record { avoids = sym k; stays = refl; long = inr (refl, l); short = inl refl })
            (λ _. record { avoids = sym k; stays = refl; long = inl refl; short = inl refl }))
  decide_action-Chosen downward final_score regime risk_level shield =
      let fits = Chosen downward final_score regime risk_level shield in
      choose fits (shield && is_high_volatility regime) avoid _
        (λ k. record { avoids = sym k; stays = refl; long = inl refl; short = inl refl })
        (λ k.
          choose fits
            (float_le (raised (shield && is_bull regime) (threshold risk_level)) final_score)
            consider_short hold
            (λ l. record { avoids = sym k; stays = refl; long = inl refl; short = inr (refl, l) })
            (λ _. record { avoids = sym k; stays = refl; long = inl refl; short = inl refl }))
  decide_action-Chosen neutral final_score regime risk_level shield =
      choose (Chosen neutral final_score regime risk_level shield)
        (shield && is_high_volatility regime) avoid hold
        (λ k. record { avoids = sym k; stays = refl; long = inl refl; short = inl refl })
        (λ k. record { avoids = sym k; stays = refl; long = inl refl; short = inl refl })

  module _ (three_places : Float → String) (tanh : Float → Float) (b : MultiAgent) where
    -- What is known of a decision, of the last snapshot and of the regime that is detected.
    pub record Verdict (symbol : String) (snapshots : List FeatureSnapshot) (d : TradingDecision)
        : Type 0 where
      pub latest : FeatureSnapshot
      pub among : last snapshots ≡ some latest
      pub found : RegimeSnapshot
      pub detected : detect snapshots ≡ some found
      pub own : d.symbol ≡ symbol
      pub regime : d.regime ≡ some found.regime
      pub avoids : is_avoid d.action ≡ (b.use_regime_shield && is_high_volatility found.regime)
      pub stays : is_close d.action ≡ false
      pub long :
          (is_consider_long d.action ≡ false)
          ⊎ ((f : TrendInputs) × (trend_inputs latest.features ≡ some f)
              × (is_bullish f ≡ true)
              × (float_le
                    (raised (b.use_regime_shield && is_bear found.regime) (threshold b.risk_level))
                    d.final_score
                  ≡ true))
      pub short :
          (is_consider_short d.action ≡ false)
          ⊎ ((f : TrendInputs) × (trend_inputs latest.features ≡ some f)
              × (is_bearish f ≡ true)
              × (float_le
                    (raised (b.use_regime_shield && is_bull found.regime) (threshold b.risk_level))
                    d.final_score
                  ≡ true))

    decision_on-Verdict :
        (symbol : String) (snapshots : List FeatureSnapshot) (latest : FeatureSnapshot)
        (signal : TradingSignal) (final_score : Float) (found : RegimeSnapshot)
        → last snapshots ≡ some latest
        → detect snapshots ≡ some found
        → Founded (trend_inputs latest.features) signal
        → Verdict symbol snapshots (decision_on three_places tanh b symbol signal final_score found)
    unfolding decision_on
    decision_on-Verdict symbol snapshots latest signal final_score found e k h =
        let c =
          decide_action-Chosen signal.direction final_score found.regime b.risk_level
            b.use_regime_shield in
        record {
          latest = latest;
          among = e;
          found = found;
          detected = k;
          own = refl;
          regime = refl;
          avoids = c.avoids;
          stays = c.stays;
          long =
              both_hold (λ f. trend_inputs latest.features ≡ some f) (λ f. is_bullish f ≡ true) _
                (is_upward signal.direction) _ h.up c.long;
          short =
              both_hold (λ f. trend_inputs latest.features ≡ some f) (λ f. is_bearish f ≡ true) _
                (is_downward signal.direction) _ h.down c.short;
        }

    module _ (symbol : String) (snapshots : List FeatureSnapshot) where
      judge-Verdict :
          (latest : FeatureSnapshot) (signal : TradingSignal) (x : Option Float)
          (r : Option RegimeSnapshot)
          → last snapshots ≡ some latest
          → detect snapshots ≡ r
          → Founded (trend_inputs latest.features) signal
          → Gets (Verdict symbol snapshots) (judge three_places tanh b symbol signal x r)
      unfolding judge
      judge-Verdict latest signal none r e k h = tt
      judge-Verdict latest signal (some x) none e k h = tt
      judge-Verdict latest signal (some x) (some found) e k h =
          decision_on-Verdict symbol snapshots latest signal x found e k h

      signal-Verdict :
          (latest : FeatureSnapshot) (m : Option TradingSignal)
          → last snapshots ≡ some latest
          → Gets (Founded (trend_inputs latest.features)) m
          → Gets (Gets (Verdict symbol snapshots)) (
              (m >>= λ s. some (some s)) >>= λ o.
              some (judge_signal three_places tanh b symbol snapshots o))
      unfolding judge_signal
      signal-Verdict latest none e h = tt
      signal-Verdict latest (some signal) e h =
          judge-Verdict latest signal (score tanh b.scoring_agent signal snapshots)
            (detect snapshots) e refl h

      from_last-Verdict :
          (o : Option FeatureSnapshot)
          → last snapshots ≡ o
          → Gets
              (Gets (Verdict symbol snapshots))
              (generate_from o >>= λ s. some (judge_signal three_places tanh b symbol snapshots s))
      unfolding judge_signal
      from_last-Verdict none e = tt
      from_last-Verdict (some latest) e =
          signal-Verdict latest (signal_of (trend_inputs latest.features)) e
            (signal_of-Founded (trend_inputs latest.features))

      -- A decision of the strategy is on the symbol that it is asked about, carries the regime that is detected,
      -- and never closes. It avoids the symbol just where the shield is used and volatility is high. It enters
      -- long only if the last snapshot has all features that a signal needs and they show a rise, and short only
      -- if they show a fall; the score then reaches the threshold of the risk level, raised where the shield is used and the
      -- market goes the other way.
      pub multi_agent_decide-Verdict :
          (opened : Bool) (d : TradingDecision)
          → multi_agent_decide three_places tanh b symbol snapshots opened ≡ some (some d)
          → Verdict symbol snapshots d
      unfolding multi_agent_decide generate
      multi_agent_decide-Verdict opened d h =
          subst (Gets (Gets (Verdict symbol snapshots))) h (from_last-Verdict (last snapshots) refl)
