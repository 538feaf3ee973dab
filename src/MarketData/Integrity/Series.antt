-- ===== src/MarketData/Integrity/Series.antt =====
-- Candles in a row: what the checks of the order, of duplicates and of steps say of a series.
use crypto_mas.Prelude.{
  ◌⊎◌, ℕ, ◌+◌, ◌≤◌, ◌<◌, ◌≡◌, refl, subst, inl, inr, false, Option, none, some, List, [], ◌∷◌,
  arith, All, any, All-map_of,
}
use crypto_mas.Numbers.{Numerics}
use crypto_mas.MarketData.Schemas.{Timeframe, OhlcvCandle}
use crypto_mas.MarketData.Integrity.{
  one_month, one_week, timeframe_to_delta, check_sorting_from, same_key, check_duplicates_from,
  check_duplicates, sort_by_time, check_steps_from,
}

pub delta_positive : (timeframe : Timeframe) (d : ℕ) → timeframe_to_delta timeframe ≡ some d → 0 < d
unfolding timeframe_to_delta
delta_positive timeframe d h = ground arith

module _ ⦃n : Numerics⦄ where
  -- Each candle opens one step after the one before it.
  abbrev pub IsSpaced : Option ℕ → OhlcvCandle → List OhlcvCandle → Type 0
  IsSpaced step previous [] = Unit
  IsSpaced none previous (c ∷ cs) = ⊥
  IsSpaced (some d) previous (c ∷ cs) =
      (c.open_time ≡ previous.open_time + d) × IsSpaced (some d) c cs

  abbrev pub IsSeries : Option ℕ → List OhlcvCandle → Type 0
  IsSeries step [] = ⊥
  IsSeries step (c ∷ cs) = IsSpaced step c cs

  abbrev pub IsSorted : OhlcvCandle → List OhlcvCandle → Type 0
  IsSorted previous [] = Unit
  IsSorted previous (c ∷ cs) = (previous.open_time ≤ c.open_time) × IsSorted c cs

  pub check_sorting-IsSorted :
      (p : OhlcvCandle) (cs : List OhlcvCandle) → check_sorting_from p cs ≡ [] → IsSorted p cs
  unfolding check_sorting_from
  check_sorting-IsSorted p [] h = tt
  check_sorting-IsSorted p (c ∷ cs) h = ground (arith, check_sorting-IsSorted c cs)

  pub sort_by_time-sorted :
      (p : OhlcvCandle) (cs : List OhlcvCandle) → IsSorted p cs → sort_by_time (p ∷ cs) ≡ p ∷ cs
  unfolding sort_by_time
  sort_by_time-sorted p [] h = refl
  sort_by_time-sorted p (c ∷ cs) h = rw (sort_by_time-sorted c cs h.1) (ground arith)

  pub check_steps-IsSpaced :
      (step : Option ℕ) (p : OhlcvCandle) (cs : List OhlcvCandle)
      → check_steps_from step p cs ≡ []
      → IsSpaced step p cs
  unfolding check_steps_from
  check_steps-IsSpaced none p [] h = tt
  check_steps-IsSpaced (some d) p [] h = tt
  check_steps-IsSpaced none p (c ∷ cs) h = ground arith
  check_steps-IsSpaced (some d) p (c ∷ cs) h = ground (arith, check_steps-IsSpaced (some d) c cs)

  pub IsSpaced-check_steps :
      (step : Option ℕ) (p : OhlcvCandle) (cs : List OhlcvCandle)
      → IsSpaced step p cs
      → check_steps_from step p cs ≡ []
  unfolding check_steps_from
  IsSpaced-check_steps none p [] h = refl
  IsSpaced-check_steps (some d) p [] h = refl
  IsSpaced-check_steps none p (c ∷ cs) h = absurd h
  IsSpaced-check_steps (some d) p (c ∷ cs) h = ground (arith, IsSpaced-check_steps (some d) c cs)

  pub IsSpaced-IsSorted :
      (step : Option ℕ) (p : OhlcvCandle) (cs : List OhlcvCandle)
      → IsSpaced step p cs
      → IsSorted p cs
  IsSpaced-IsSorted none p [] h = tt
  IsSpaced-IsSorted (some d) p [] h = tt
  IsSpaced-IsSorted none p (c ∷ cs) h = absurd h
  IsSpaced-IsSorted (some d) p (c ∷ cs) h = (omega arith, IsSpaced-IsSorted (some d) c cs h.1)

  pub IsSorted-check_sorting :
      (p : OhlcvCandle) (cs : List OhlcvCandle) → IsSorted p cs → check_sorting_from p cs ≡ []
  unfolding check_sorting_from
  IsSorted-check_sorting p [] h = refl
  IsSorted-check_sorting p (c ∷ cs) h = ground (arith, IsSorted-check_sorting c cs)

  abbrev OpensBefore : ℕ → OhlcvCandle → Type 0
  OpensBefore t c = c.open_time < t

  any-same_key :
      (c : OhlcvCandle) (seen : List OhlcvCandle)
      → All (OpensBefore c.open_time) seen
      → any (same_key c) seen ≡ false
  unfolding same_key
  any-same_key c [] h = refl
  any-same_key c (d ∷ ds) h = ground (arith, any-same_key c ds h.1)

  no_duplicates :
      (d : ℕ) (p : OhlcvCandle) (seen cs : List OhlcvCandle)
      → 0 < d
      → All (OpensBefore (p.open_time + d)) seen
      → IsSpaced (some d) p cs
      → check_duplicates_from seen cs ≡ []
  unfolding check_duplicates_from
  no_duplicates d p seen [] pos h k = refl
  no_duplicates d p seen (c ∷ cs) pos h k =
      let old : All (OpensBefore c.open_time) seen = rw k.0 h in
      rw (any-same_key c seen old) (
        no_duplicates d c (c ∷ seen) cs pos
          (
            omega arith,
            All-map_of (OpensBefore c.open_time) (OpensBefore (c.open_time + d)) seen
                (λ x z. omega arith) old,
          )
          k.1)

  pub weekly_unspaced :
      (c d : OhlcvCandle) (cs : List OhlcvCandle) (timeframe : Timeframe)
      → (timeframe ≡ one_week) ⊎ (timeframe ≡ one_month)
      → ¬ IsSpaced (timeframe_to_delta timeframe) c (d ∷ cs)
  unfolding timeframe_to_delta
  weekly_unspaced c d cs timeframe (inl e) h =
      subst (λ t. IsSpaced (timeframe_to_delta t) c (d ∷ cs)) e h
  weekly_unspaced c d cs timeframe (inr e) h =
      subst (λ t. IsSpaced (timeframe_to_delta t) c (d ∷ cs)) e h

  pub spaced_no_duplicates :
      (step : Option ℕ)
      → ((d : ℕ) → step ≡ some d → 0 < d)
      → (c : OhlcvCandle) (cs : List OhlcvCandle) → IsSpaced step c cs
      → check_duplicates (c ∷ cs) ≡ []
  unfolding check_duplicates check_duplicates_from
  spaced_no_duplicates none pos c [] h = refl
  spaced_no_duplicates none pos c (x ∷ cs) h = absurd h
  spaced_no_duplicates (some d) pos c cs h =
      no_duplicates d c (c ∷ []) cs (pos d refl) (let p = pos d refl in omega arith, tt) h
