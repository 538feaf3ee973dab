-- ===== src/Cycle/MarketData/Fetched.antt =====
-- services/trading_cycle_service/market_data_orchestrator.py: what fetching leaves for the strategies, and when
-- Bitcoin crashes.
use crypto_mas.Prelude.{
  ℕ, ◌-◌, ◌*◌, ◌≡◌, refl, sym, subst, Bool, true, false, ◌&&◌, Option, none, some, List, [], ◌∷◌,
  ◌++◌, String, if◌then◌else◌,
}
use crypto_mas.Prelude.Dict.{to_set}
use crypto_mas.Numbers.{Numerics, float_lt}
use crypto_mas.Domain.{FeatureSnapshot}
use crypto_mas.Risk.Models.{last}
use crypto_mas.MarketData.Schemas.{Timeframe}
use crypto_mas.Cycle.Views.{FeatureStore, get_timedelta}
use crypto_mas.Cycle.Strategies.Admitted.{Leaves, Leaves-then}
use crypto_mas.Cycle.MarketData.{
  htf_map, is_crash, raise_unless, fetch_bars, fetch_htf, check_btc, fetch_data_for_symbols,
}

module _ ⦃n : Numerics⦄ where
  open n use {float_lit, float_sub}

  -- The last of the snapshots has a rate of change, and it is below -5.
  pub crashes : List FeatureSnapshot → Bool
  crashes [] = false
  crashes (s ∷ []) = elim s.features.roc_14 [
    | none ↦ false
    | some roc ↦ float_lt roc (float_sub (float_lit 0 0) (float_lit 5 0))
  ]
  crashes (x ∷ y ∷ rest) = crashes (y ∷ rest)

  is_crash-last : (xs : List FeatureSnapshot) → is_crash (last xs) ≡ crashes xs
  unfolding is_crash crashes
  is_crash-last [] = refl
  is_crash-last (s ∷ []) = refl
  is_crash-last (x ∷ y ∷ rest) = is_crash-last (y ∷ rest)

  module _ {S : Type 0} (store : FeatureStore S)
      (backfill : List String → Timeframe → ℕ → ℕ → S → Bool × S) (timeframe : Timeframe)
      (now : ℕ) where
    -- What is left of the candles and the features by the calls of the pipeline, in their order: 250 bars
    -- of the timeframe are fetched, then 60 of the higher one, and then the features of Bitcoin are
    -- computed, if its shield is on.
    after_htf : List String → Option Timeframe → S → S
    after_htf symbols none s = s
    after_htf symbols (some htf) s = (backfill symbols htf (now - get_timedelta htf * 60) now s).1

    after_bars : List String → S → S
    unfolding after_htf
    after_bars symbols s =
        after_htf symbols (htf_map timeframe)
          (backfill symbols timeframe (now - get_timedelta timeframe * 250) now s).1

    after_btc : Bool → S → S
    after_btc false s = s
    after_btc true s = (store.calculate_and_store "BTCUSDT" timeframe (some now) s).1

    pub ready : List String → Bool → S → S
    unfolding after_bars after_btc
    ready symbols use_btc_shield s =
        after_btc use_btc_shield
          (after_bars (to_set (if use_btc_shield then symbols ++ "BTCUSDT" ∷ [] else symbols)) s)

    -- Bitcoin crashes, by the last of the five snapshots that are then read.
    pub btc_crashes : Bool → S → Bool
    unfolding crashes
    btc_crashes use_btc_shield s =
        use_btc_shield && crashes (store.list_by_symbol s "BTCUSDT" timeframe none 5)

    returned_to : (x : Bool × S) → Leaves (λ a t. t ≡ x.1) (raise_unless store backfill x)
    unfolding raise_unless
    returned_to (true, s) = refl
    returned_to (false, s) = tt

    fetch_htf-Leaves :
        (symbols : List String) (htf : Option Timeframe) (s : S)
        → Leaves (λ a t. t ≡ after_htf symbols htf s) (fetch_htf store backfill symbols htf now s)
    unfolding fetch_htf fetch_bars after_htf
    fetch_htf-Leaves symbols none s = refl
    fetch_htf-Leaves symbols (some htf) s =
        returned_to (backfill symbols htf (now - get_timedelta htf * 60) now s)

    check_btc-Leaves :
        (shield : Bool) (s : S)
        → Leaves
            (λ crashing t. (crashing ≡ btc_crashes shield t) × (t ≡ after_btc shield s))
            (check_btc store backfill timeframe now shield s)
    unfolding check_btc btc_crashes after_btc
    check_btc-Leaves false s = (refl, refl)
    check_btc-Leaves true s =
        let x = store.calculate_and_store "BTCUSDT" timeframe (some now) s in
        Leaves-then (λ a t. t ≡ x.1) _ (raise_unless store backfill x) _ (returned_to x)
          (λ a t e. (is_crash-last (store.list_by_symbol t "BTCUSDT" timeframe none 5), e))

    -- Where fetching returns, it says whether Bitcoin crashes.
    pub fetch_data-Leaves :
        (symbols : List String) (shield : Bool) (s : S)
        → Leaves
            (λ crashing t. (crashing ≡ btc_crashes shield t) × (t ≡ ready symbols shield s))
            (fetch_data_for_symbols store backfill symbols timeframe now shield s)
    unfolding fetch_data_for_symbols fetch_bars ready after_bars
    fetch_data-Leaves symbols shield s =
        let wanted = to_set (if shield then symbols ++ "BTCUSDT" ∷ [] else symbols) in
        let x = backfill wanted timeframe (now - get_timedelta timeframe * 250) now s in
        Leaves-then (λ a t. t ≡ x.1) _ _ _ (returned_to x)
          (λ a t e.
            Leaves-then (λ a u. u ≡ after_bars wanted s) _ _ _
              (subst
                (λ t.
                  Leaves (λ a u. u ≡ after_bars wanted s)
                    (fetch_htf store backfill wanted (htf_map timeframe) now t))
                (sym e) (fetch_htf-Leaves wanted (htf_map timeframe) x.1))
              (λ a u k.
                subst
                  (λ u.
                    Leaves
                      (λ crashing t.
                        (crashing ≡ btc_crashes shield t) × (t ≡ ready symbols shield s))
                      (check_btc store backfill timeframe now shield u))
                  (sym k) (check_btc-Leaves shield (after_bars wanted s))))
