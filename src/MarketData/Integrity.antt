-- ===== src/MarketData/Integrity.antt =====
-- services/market_data_service/integrity.py, `CandleIntegrityChecker`. An issue keeps its code, symbol
-- and time; its message is left out.
pub mod Series
pub mod Quality
pub mod Validity
use crypto_mas.Prelude.{
  ℕ, ◌+◌, ◌*◌, Bool, not, ◌&&◌, ◌||◌, Option, none, some, List, [], ◌∷◌, ◌++◌, String, true, false,
  ltb, leb, ◌==◌, str_eq, any, if◌then◌else◌, length,
}
use crypto_mas.Numbers.{Numerics, ◌≤?◌, ◌<?◌, nought, lesser, greater}
use crypto_mas.MarketData.Schemas.{
  Timeframe, one_minute, five_minutes, fifteen_minutes, one_hour, four_hours, one_day, one_week,
  one_month, OhlcvCandle,
}

pub data Code : Type 0 where
  empty_candle_list candles_not_sorted duplicate_candle non_positive_price invalid_high : Code
  invalid_low negative_volume negative_quote_volume invalid_time_bounds : Code
  missing_or_irregular_candle : Code

pub record IntegrityIssue : Type 0 where
  pub code : Code
  pub place : Option (String × ℕ)

pub record IntegrityReport : Type 0 where
  pub is_valid : Bool
  pub total_candles : ℕ
  pub issue_count : ℕ
  pub issues : List IntegrityIssue

-- `_timeframe_to_delta`, in microseconds. The `match` has no case for a week and a month: it falls
-- through, and the method returns None.
pub timeframe_to_delta : Timeframe → Option ℕ
timeframe_to_delta one_minute = some 60_000_000
timeframe_to_delta five_minutes = some 300_000_000
timeframe_to_delta fifteen_minutes = some 900_000_000
timeframe_to_delta one_hour = some 3_600_000_000
timeframe_to_delta four_hours = some 14_400_000_000
timeframe_to_delta one_day = some 86_400_000_000
timeframe_to_delta one_week = none
timeframe_to_delta one_month = none

module _ ⦃n : Numerics⦄ where
  issue : Code → OhlcvCandle → IntegrityIssue
  issue code c = record { code = code; place = some (c.symbol, c.open_time) }

  -- The issue, if the test holds.
  abbrev flag : Bool → Code → OhlcvCandle → List IntegrityIssue
  flag b code c = if b then issue code c ∷ [] else []

  pub check_sorting_from : OhlcvCandle → List OhlcvCandle → List IntegrityIssue
  check_sorting_from previous [] = []
  check_sorting_from previous (c ∷ cs) =
      flag (ltb c.open_time previous.open_time) candles_not_sorted c ++ check_sorting_from c cs

  pub check_sorting : List OhlcvCandle → List IntegrityIssue
  unfolding check_sorting_from
  check_sorting [] = []
  check_sorting (c ∷ cs) = check_sorting_from c cs

  -- The key of a candle; the text of a UTC time determines the time.
  same_key : OhlcvCandle → OhlcvCandle → Bool
  same_key a b =
      str_eq a.exchange b.exchange && str_eq a.symbol b.symbol && a.open_time == b.open_time

  check_duplicates_from : List OhlcvCandle → List OhlcvCandle → List IntegrityIssue
  unfolding same_key
  check_duplicates_from seen [] = []
  check_duplicates_from seen (c ∷ cs) =
      flag (any (same_key c) seen) duplicate_candle c ++ check_duplicates_from (c ∷ seen) cs

  pub check_duplicates : List OhlcvCandle → List IntegrityIssue
  unfolding check_duplicates_from
  check_duplicates = check_duplicates_from []

  -- A price that is not positive hides the other issues of its candle.
  pub ohlc_issues : OhlcvCandle → List IntegrityIssue
  ohlc_issues c =
      if c.opening ≤? nought || c.high ≤? nought || c.low ≤? nought || c.close ≤? nought
      then issue non_positive_price c ∷ []
      else flag (c.high <? greater (greater c.opening c.close) c.low) invalid_high c
        ++ flag (lesser (lesser c.opening c.close) c.high <? c.low) invalid_low c

  pub volume_issues : OhlcvCandle → List IntegrityIssue
  volume_issues c =
      flag (c.volume <? nought) negative_volume c
      ++ flag (elim c.quote_volume [ none ↦ false | some q ↦ q <? nought ]) negative_quote_volume c

  pub bounds_issues : OhlcvCandle → List IntegrityIssue
  bounds_issues c = flag (leb c.close_time c.open_time) invalid_time_bounds c

  -- The loop of `_check_ohlc`, `_check_volume` and `_check_time_bounds`.
  pub check_each : (OhlcvCandle → List IntegrityIssue) → List OhlcvCandle → List IntegrityIssue
  check_each check [] = []
  check_each check (c ∷ cs) = check c ++ check_each check cs

  insert_by_time : OhlcvCandle → List OhlcvCandle → List OhlcvCandle
  insert_by_time c [] = c ∷ []
  insert_by_time c (d ∷ ds) =
      let rest = insert_by_time c ds in if leb c.open_time d.open_time then c ∷ d ∷ ds else d ∷ rest

  -- `sorted(candles, key=open_time)`, which is stable: of two that open together the first stays first.
  pub sort_by_time : List OhlcvCandle → List OhlcvCandle
  unfolding insert_by_time
  sort_by_time [] = []
  sort_by_time (c ∷ cs) = insert_by_time c (sort_by_time cs)

  -- `actual_step != expected_step`, for candles in order. No step equals None.
  is_irregular : Option ℕ → OhlcvCandle → OhlcvCandle → Bool
  is_irregular none previous c = true
  is_irregular (some step) previous c = not (c.open_time == previous.open_time + step)

  pub check_steps_from : Option ℕ → OhlcvCandle → List OhlcvCandle → List IntegrityIssue
  unfolding is_irregular
  check_steps_from step previous [] = []
  check_steps_from step previous (c ∷ cs) =
      flag (is_irregular step previous c) missing_or_irregular_candle c
      ++ check_steps_from step c cs

  check_steps : Option ℕ → List OhlcvCandle → List IntegrityIssue
  unfolding check_steps_from
  check_steps step [] = []
  check_steps step (c ∷ cs) = check_steps_from step c cs

  check_missing_candles : List OhlcvCandle → Timeframe → List IntegrityIssue
  unfolding check_steps sort_by_time timeframe_to_delta
  check_missing_candles cs timeframe = check_steps (timeframe_to_delta timeframe) (sort_by_time cs)

  all_issues : List OhlcvCandle → Timeframe → List IntegrityIssue
  unfolding check_sorting check_duplicates check_each ohlc_issues volume_issues bounds_issues
      check_missing_candles
  all_issues cs timeframe =
      check_sorting cs
      ++ (check_duplicates cs
          ++ (check_each ohlc_issues cs
              ++ (check_each volume_issues cs
                  ++ (check_each bounds_issues cs ++ check_missing_candles cs timeframe))))

  report_of : List OhlcvCandle → List IntegrityIssue → IntegrityReport
  report_of cs issues = record {
    is_valid = length issues == 0;
    total_candles = length cs;
    issue_count = length issues;
    issues = issues;
  }

  pub validate : List OhlcvCandle → Timeframe → IntegrityReport
  unfolding all_issues report_of
  validate [] timeframe = report_of [] (record { code = empty_candle_list; place = none } ∷ [])
  validate (c ∷ cs) timeframe = report_of (c ∷ cs) (all_issues (c ∷ cs) timeframe)
