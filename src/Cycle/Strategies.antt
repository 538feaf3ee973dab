-- ===== src/Cycle/Strategies.antt =====
-- services/trading_cycle_service/strategy_orchestrator.py, `StrategyOrchestrator.run_strategies_and_score`. The
-- strategy, which may raise, is a parameter; so is the store of features. Texts for the log are left out.
pub mod Admitted
use crypto_mas.Prelude.{
  ℕ, ◌+◌, Bool, true, false, not, ◌&&◌, ◌||◌, Option, none, some, List, [], ◌∷◌, String, ltb,
  if◌then◌else◌,
}
use crypto_mas.Prelude.Dict.{contains}
use crypto_mas.Numbers.{Numerics}
use crypto_mas.Domain.{FeatureSnapshot}
use crypto_mas.Strategy.{TradingDecision}
use crypto_mas.Risk.Models.{Context, last}
use crypto_mas.MarketData.Schemas.{Timeframe}
use crypto_mas.Repository.Positions.{minutes}
use crypto_mas.Cycle.Views.{FeatureStore, PositionView, get_timedelta}
use crypto_mas.Cycle.Gates.{gates, is_listed}

-- A value or an exception, and the state that is left.
abbrev pub Attempt : Type 0 → Type 0 → Type 0
Attempt S A = Option A × S

abbrev pub and_then : {S A B : Type 0} → Attempt S A → (A → S → Attempt S B) → Attempt S B
and_then (none, s) f = (none, s)
and_then (some a, s) f = f a s

module _ ⦃n : Numerics⦄ where
  -- The arguments of a call that the loop reads.
  pub record Settings : Type 0 where
    pub strategy_name : String
    pub timeframe : Timeframe
    pub htf : Option Timeframe
    pub now : ℕ
    pub is_backtest : Bool
    pub btc_is_crashing : Bool
    pub use_btc_shield : Bool
    pub use_htf_shield : Bool
    pub use_regime_shield : Bool

  -- `now - snap_time > timeframe_delta + timedelta(minutes=15)`
  pub is_stale : Timeframe → ℕ → FeatureSnapshot → Bool
  is_stale timeframe now s = ltb (s.timestamp + (get_timedelta timeframe + minutes 15)) now

  abbrev pub context_of : Settings → List FeatureSnapshot → Context
  context_of c htf_snapshots = record {
    use_btc_shield = c.use_btc_shield;
    btc_is_crashing = c.btc_is_crashing;
    use_htf_shield = c.use_htf_shield;
    htf_snapshots = htf_snapshots;
    use_regime_shield = c.use_regime_shield;
  }

  module _ (one_place : n.Float → String) {S : Type 0} (store : FeatureStore S)
      (decide : String → List FeatureSnapshot → Bool → Option (Option TradingDecision))
      (v : PositionView) (c : Settings) where
    -- `calculate_and_store`, but in a backtest.
    pub refresh : String → Timeframe → Option ℕ → S → Attempt S Bool
    refresh symbol timeframe end s =
        if c.is_backtest
        then (some true, s)
        else (let (returned, s') = store.calculate_and_store symbol timeframe end s in
            (if returned then some true else none, s'))

    -- The snapshots of the higher timeframe, where the shield wants them.
    htf_of : String → Option Timeframe → S → Attempt S (List FeatureSnapshot)
    unfolding refresh
    htf_of symbol none s = (some [], s)
    htf_of symbol (some htf) s =
        if c.use_htf_shield
        then and_then (refresh symbol htf none s)
            (λ _ s'. (some (store.list_by_symbol s' symbol htf (some c.now) 5), s'))
        else (some [], s)

    listed : String → TradingDecision → Option TradingDecision
    unfolding is_listed
    listed symbol d = if is_listed v symbol d then some d else none

    -- The strategy's decision, through the gates.
    decided :
        String
        → FeatureSnapshot
        → List FeatureSnapshot
        → Option TradingDecision
        → Option TradingDecision
    unfolding listed gates
    decided symbol latest htf_snapshots none = none
    decided symbol latest htf_snapshots (some d) =
        listed symbol
          (gates one_place v c.strategy_name (context_of c htf_snapshots) symbol latest.features d)

    answer :
        String
        → List FeatureSnapshot
        → FeatureSnapshot
        → List FeatureSnapshot
        → S
        → Attempt S (Option TradingDecision)
    unfolding decided
    answer symbol snapshots latest htf_snapshots s =
        elim (decide symbol snapshots (contains symbol v.open_symbols)) [
          | none ↦ (none, s)
          | some made ↦ (some (decided symbol latest htf_snapshots made), s)
        ]

    consult :
        String → List FeatureSnapshot → FeatureSnapshot → S → Attempt S (Option TradingDecision)
    unfolding htf_of answer is_stale
    consult symbol snapshots latest s =
        if is_stale c.timeframe c.now latest
        then (some none, s)
        else and_then (htf_of symbol c.htf s)
            (λ htf_snapshots s'. answer symbol snapshots latest htf_snapshots s')

    look : String → List FeatureSnapshot → S → Attempt S (Option TradingDecision)
    unfolding consult
    look symbol snapshots s = elim (last snapshots) [
      | none ↦ (some none, s)
      | some latest ↦ consult symbol snapshots latest s
    ]

    -- The body of the loop.
    pub visit : String → S → Attempt S (Option TradingDecision)
    unfolding look refresh
    visit symbol s =
        and_then (refresh symbol c.timeframe (some c.now) s)
          (λ _ s'. look symbol (store.list_by_symbol s' symbol c.timeframe (some c.now) 5) s')

    abbrev add_listed : Option TradingDecision → List TradingDecision → List TradingDecision
    add_listed none ds = ds
    add_listed (some d) ds = d ∷ ds

    -- The decisions, in the order of the symbols.
    unfoldable pub run_strategies_and_score : List String → S → Attempt S (List TradingDecision)
    unfolding visit
    run_strategies_and_score [] s = (some [], s)
    run_strategies_and_score (symbol ∷ symbols) s = and_then (visit symbol s) (λ found s'.
        and_then (run_strategies_and_score symbols s')
          (λ rest s''. (some (add_listed found rest), s'')))
