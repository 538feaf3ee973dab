-- ===== src/MarketData/Integrity/Validity.antt =====
-- What the verdict of `CandleIntegrityChecker.validate` says of the candles.
use crypto_mas.MarketData.Integrity.Quality.{All-IsGood, IsGood}
use crypto_mas.MarketData.Integrity.Series.{
  IsSpaced-check_steps, delta_positive, spaced_no_duplicates, check_steps-IsSpaced,
  check_sorting-IsSorted, IsSorted-check_sorting, IsSpaced-IsSorted, sort_by_time-sorted, IsSeries,
  IsSpaced, weekly_unspaced,
}
use crypto_mas.Prelude.{
  length-zero, append-nil_inv, ◌⊎◌, ==_iff, ◌≡◌, ◌↔◌, refl, sym, subst, inl, inr, true, false, List,
  [], ◌∷◌, All, Bool-cases,
}
use crypto_mas.Numbers.{Numerics, IsOrdered}
use crypto_mas.MarketData.Schemas.{Timeframe, OhlcvCandle}
use crypto_mas.MarketData.Integrity.{
  one_month, one_week, timeframe_to_delta, check_sorting, check_duplicates, check_steps,
  check_missing_candles, all_issues, report_of, validate,
}

module _ ⦃n : Numerics⦄ where
  module _ (laws : IsOrdered) where
    open laws use {le_total, le_trans}

    series_sound :
        (timeframe : Timeframe) (c : OhlcvCandle) (cs : List OhlcvCandle)
        → check_sorting (c ∷ cs) ≡ []
        → check_missing_candles (c ∷ cs) timeframe ≡ []
        → IsSpaced (timeframe_to_delta timeframe) c cs
    unfolding check_sorting check_missing_candles check_steps
    series_sound timeframe c cs h k =
        let sorted = sort_by_time-sorted c cs (check_sorting-IsSorted c cs h) in
        check_steps-IsSpaced (timeframe_to_delta timeframe) c cs
          (subst (λ z. check_steps (timeframe_to_delta timeframe) z ≡ []) sorted k)

    series_complete :
        (timeframe : Timeframe) (c : OhlcvCandle) (cs : List OhlcvCandle)
        → IsSpaced (timeframe_to_delta timeframe) c cs
        → (check_sorting (c ∷ cs) ≡ [])
          × (check_duplicates (c ∷ cs) ≡ [])
          × (check_missing_candles (c ∷ cs) timeframe ≡ [])
    unfolding check_sorting check_missing_candles check_steps check_duplicates
    series_complete timeframe c cs h =
        let step = timeframe_to_delta timeframe in
        let sorted = IsSpaced-IsSorted step c cs h in
        (
          IsSorted-check_sorting c cs sorted,
          spaced_no_duplicates step (delta_positive timeframe) c cs h,
          subst (λ z. check_steps step z ≡ []) (sym (sort_by_time-sorted c cs sorted))
              (IsSpaced-check_steps step c cs h),
        )

    -- With one candle or more, the verdict is "valid" just where the timeframe has a step and each candle
    -- opens one step after the one before it in the list, or there is one candle alone, and every
    -- candle is good: its prices are positive, with the high above and the low below, its volumes are
    -- not negative, and it closes after it opens. An empty list is never valid.
    pub validate_iff :
        (cs : List OhlcvCandle) (timeframe : Timeframe)
        → ((validate cs timeframe).is_valid ≡ true)
          ↔ (IsSeries (timeframe_to_delta timeframe) cs × All IsGood cs)
    unfolding validate report_of all_issues
    validate_iff [] timeframe = (λ h. cc, λ h. absurd h.0)
    validate_iff (c ∷ cs) timeframe = (
      λ h.
          let sorting = append-nil_inv _ _ (length-zero _ ((==_iff _ _).0 h)) in
          let duplicates = append-nil_inv _ _ sorting.1 in
          let prices = append-nil_inv _ _ duplicates.1 in
          let volumes = append-nil_inv _ _ prices.1 in
          let bounds = append-nil_inv _ _ volumes.1 in
          (
            series_sound timeframe c cs sorting.0 bounds.1,
            (All-IsGood laws (c ∷ cs)).1 (prices.0, volumes.0, bounds.0),
          ),
      λ h.
          let series = series_complete timeframe c cs h.0 in
          let good = (All-IsGood laws (c ∷ cs)).0 h.1 in
          rw (series.0, series.1, series.2, good.0, good.1, good.2) refl,
    )

  -- Candles of a week or a month: two or more of them are never valid, however they are spaced.
  pub validate_weekly :
      (laws : IsOrdered) (c d : OhlcvCandle) (cs : List OhlcvCandle) (timeframe : Timeframe)
      → (timeframe ≡ one_week) ⊎ (timeframe ≡ one_month)
      → (validate (c ∷ d ∷ cs) timeframe).is_valid ≡ false
  unfolding timeframe_to_delta
  validate_weekly laws c d cs timeframe h =
      elim (Bool-cases (validate (c ∷ d ∷ cs) timeframe).is_valid) [
        | inr e ↦ e
        | inl e ↦
            absurd (
              weekly_unspaced c d cs timeframe h ((validate_iff laws (c ∷ d ∷ cs) timeframe).0 e).0)
      ]
