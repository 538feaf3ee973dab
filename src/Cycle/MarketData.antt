-- ===== src/Cycle/MarketData.antt =====
-- services/trading_cycle_service/market_data_orchestrator.py, and which symbols a cycle of
-- cycle_orchestrator.py is about. The clients of the exchange are parameters: `backfill` says whether it returned.
pub mod Fetched
use crypto_mas.Prelude.{
  ℕ, ◌-◌, ◌*◌, Bool, true, false, not, Option, none, some, List, [], ◌∷◌, ◌++◌, String, str_eq,
  ◌==◌, if◌then◌else◌, filter, length, take,
}
use crypto_mas.Prelude.Dict.{contains, to_set}
use crypto_mas.Numbers.{Numerics, float_lt}
use crypto_mas.Domain.{FeatureSnapshot}
use crypto_mas.Risk.Models.{last}
use crypto_mas.MarketData.Schemas.{
  Timeframe, one_minute, fifteen_minutes, one_hour, four_hours, one_day, one_week, one_month,
}
use crypto_mas.Portfolio.Selection.{is_empty}
use crypto_mas.Cycle.Views.{FeatureStore, get_timedelta}
use crypto_mas.Cycle.Strategies.{Attempt, and_then}

abbrev pub default_fallback_symbols : List String
default_fallback_symbols = "BTCUSDT" ∷ "ETHUSDT" ∷ []

abbrev or_fallback : List String → List String
or_fallback auto_symbols =
    if is_empty auto_symbols then default_fallback_symbols else take 12 auto_symbols

-- Where the search for symbols has raised.
abbrev without : String → List String → List String
without word symbols =
    if length symbols == 1
    then default_fallback_symbols
    else filter (λ s. not (str_eq s word)) symbols

-- The symbols that a search finds stand in for its word. Of the gainers there are two lists.
abbrev pub resolve_symbols :
    Option (List String × List String) → Option (List String) → List String → List String
resolve_symbols gainers gems symbols =
    if contains "AUTO_GAINERS" symbols
    then (elim gainers [
      | none ↦ without "AUTO_GAINERS" symbols
      | some (pumpwatch, all) ↦ or_fallback (if is_empty pumpwatch then all else pumpwatch)
    ])
    else if contains "HIDDEN_GEMS" symbols
    then (elim gems [ none ↦ without "HIDDEN_GEMS" symbols | some found ↦ or_fallback found ])
    else symbols

-- `list(dict.fromkeys(xs))`
abbrev pub from_keys : List String → List String → List String
from_keys done [] = done
from_keys done (x ∷ xs) = from_keys (if contains x done then done else done ++ x ∷ []) xs

-- The open symbols are appended, so that they are marked too.
abbrev pub with_open : List String → List String → List String
with_open symbols opened = if is_empty opened then symbols else from_keys [] (symbols ++ opened)

abbrev pub htf_map : Timeframe → Option Timeframe
htf_map one_minute = some four_hours
htf_map fifteen_minutes = some one_hour
htf_map one_hour = some one_day
htf_map four_hours = some one_week
htf_map one_day = some one_month
htf_map _ = none

module _ ⦃n : Numerics⦄ where
  open n use {float_lit, float_sub}

  -- The rate of change of the last snapshot is below -5.0.
  pub is_crash : Option FeatureSnapshot → Bool
  is_crash none = false
  is_crash (some s) = elim s.features.roc_14 [
    | none ↦ false
    | some roc ↦ float_lt roc (float_sub (float_lit 0 0) (float_lit 5 0))
  ]

  module _ {S : Type 0} (store : FeatureStore S)
      (backfill : List String → Timeframe → ℕ → ℕ → S → Bool × S) where
    raise_unless : Bool × S → Attempt S Bool
    raise_unless (returned, s) = (if returned then some true else none, s)

    -- How many bars of the timeframe are fetched.
    fetch_bars : List String → Timeframe → ℕ → ℕ → S → Attempt S Bool
    unfolding raise_unless
    fetch_bars symbols timeframe bars now s =
        raise_unless (backfill symbols timeframe (now - get_timedelta timeframe * bars) now s)

    fetch_htf : List String → Option Timeframe → ℕ → S → Attempt S Bool
    unfolding fetch_bars
    fetch_htf symbols none now s = (some true, s)
    fetch_htf symbols (some htf) now s = fetch_bars symbols htf 60 now s

    check_btc : Timeframe → ℕ → Bool → S → Attempt S Bool
    unfolding raise_unless is_crash
    check_btc timeframe now use_btc_shield s =
        if use_btc_shield
        then and_then (raise_unless (store.calculate_and_store "BTCUSDT" timeframe (some now) s))
            (λ _ s'.
              (some (is_crash (last (store.list_by_symbol s' "BTCUSDT" timeframe none 5))), s'))
        else (some false, s)

    -- Whether Bitcoin crashes.
    unfoldable pub fetch_data_for_symbols : List String → Timeframe → ℕ → Bool → S → Attempt S Bool
    unfolding fetch_htf check_btc
    fetch_data_for_symbols symbols timeframe now use_btc_shield s =
        let wanted = to_set (if use_btc_shield then symbols ++ "BTCUSDT" ∷ [] else symbols) in
        and_then (fetch_bars wanted timeframe 250 now s) (λ _ s1.
          and_then (fetch_htf wanted (htf_map timeframe) now s1)
            (λ _ s2. check_btc timeframe now use_btc_shield s2))
