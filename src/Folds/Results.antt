-- ===== src/Folds/Results.antt =====
-- The two loops of the fold generator: their end and their folds.
use crypto_mas.Prelude.{
  ℕ, zero, suc, ◌+◌, ◌*◌, ◌≤◌, ◌<◌, ◌≡◌, refl, none, some, List, [], ◌∷◌, arith, ltb, Bool-cases,
  inl, inr, true, false,
}
use crypto_mas.Folds.{
  Fold, fold_at, folds_from, generate_rolling_folds, add_weeks, generate_weekly_rolling_folds,
}

-- The folds from a date on are the ones that fit before the end date: numbered in a row, each starting
-- one slide after the one before, and the next one would not fit.
pub Rolling : (ℕ → ℕ) → (ℕ → ℕ) → (ℕ → ℕ) → ℕ → ℕ → ℕ → List Fold → Type 0
Rolling train test slide end_date start id [] = end_date < test (train start)
Rolling train test slide end_date start id (f ∷ fs) =
    (f.fold_id ≡ id)
    × (f.train_start ≡ start)
    × (f.train_end ≡ train start)
    × (f.test_start ≡ f.train_end)
    × (f.test_end ≡ test f.test_start)
    × (f.test_end ≤ end_date)
    × Rolling train test slide end_date (slide start) (id + 1) fs

module _ (train test slide : ℕ → ℕ) where
  -- A slide moves forward, and a period does not end before it starts.
  module _ (forward : (d : ℕ) → d < slide d) (train_grows : (d : ℕ) → d ≤ train d)
      (test_grows : (d : ℕ) → d ≤ test d) where
    folds_from-Rolling :
        (end_date fuel start id : ℕ)
        → end_date < start + fuel
        → (fs : List Fold) × (folds_from train test slide end_date (suc fuel) start id ≡ some fs)
          × Rolling train test slide end_date start id fs
    unfolding folds_from Rolling fold_at
    folds_from-Rolling end_date zero start id h =
        let late : ltb end_date (test (train start)) ≡ true =
          ground (arith, h, train_grows start, test_grows (train start)) in
        ([], rw late refl, ground arith)
    folds_from-Rolling end_date (suc fuel) start id h =
        let rest =
          folds_from-Rolling end_date fuel (slide start) (id + 1)
            (omega (arith, h, forward start)) in
        elim (Bool-cases (ltb end_date (test (train start)))) [
          | inl e ↦ ([], rw e refl, ground arith)
          | inr e ↦ (
            fold_at train test start id ∷ rest.0,
            rw (e, rest.1) refl,
            (refl, refl, refl, refl, refl, ground arith, rest.2),
          )
        ]

-- A slide that does not move, from a date whose fold fits.
folds_from-stuck :
    (train test slide : ℕ → ℕ) (end_date start : ℕ)
    → ((d : ℕ) → slide d ≡ d)
    → test (train start) ≤ end_date
    → (fuel id : ℕ) → folds_from train test slide end_date fuel start id ≡ none
unfolding folds_from
folds_from-stuck train test slide end_date start stays fits zero id = refl
folds_from-stuck train test slide end_date start stays fits (suc fuel) id =
    let early : ltb end_date (test (train start)) ≡ false = ground (arith, fits) in
    rw
      (
        early,
        stays start,
        folds_from-stuck train test slide end_date start stays fits fuel (id + 1),
      )
      refl

-- What is relied on of `relativedelta`: adding months does not lead back, and at least one month leads on.
pub record AddsMonths (add_months : ℕ → ℕ → ℕ) : Type 0 where
  pub grows : (months date : ℕ) → date ≤ add_months months date
  pub forward : (months date : ℕ) → 0 < months → date < add_months months date

-- If adding months never leads back, and adding one or more leads on, then with a test of at least one
-- month the loop ends, within two more rounds than there are microseconds up to the end date. Its folds
-- are numbered from 1, each starts its test where its training ends, fits before the end date and starts one test
-- after the fold before it, and the next one would not fit.
pub generate_rolling_folds-Rolling :
    (add_months : ℕ → ℕ → ℕ)
    → AddsMonths add_months
    → (start_date end_date train_months test_months : ℕ) → 0 < test_months
    → (fs : List Fold) × (generate_rolling_folds add_months
          (suc (suc end_date))
          start_date
          end_date
          train_months
          test_months
        ≡ some fs)
      × Rolling
          (add_months train_months)
          (add_months test_months)
          (add_months test_months)
          end_date
          start_date
          1
          fs
unfolding generate_rolling_folds
generate_rolling_folds-Rolling add_months laws start_date end_date train_months test_months h =
    folds_from-Rolling (add_months train_months) (add_months test_months) (add_months test_months)
      (λ d. laws.forward test_months d h) (λ d. laws.grows train_months d)
      (λ d. laws.grows test_months d) end_date (suc end_date) start_date 1 (omega arith)

-- With a step of at least one week the weekly loop ends, within two more rounds than there are
-- microseconds up to the end date. Its folds are numbered from 1, each starts its test where its training ends, fits before
-- the end date and starts one step after the fold before it, and the next one would not fit.
pub generate_weekly_rolling_folds-Rolling :
    (start_date end_date train_weeks test_weeks step_weeks : ℕ)
    → 0 < step_weeks
    → (fs : List Fold) × (generate_weekly_rolling_folds
          (suc (suc end_date))
          start_date
          end_date
          train_weeks
          test_weeks
          step_weeks
        ≡ some fs)
      × Rolling
          (add_weeks train_weeks)
          (add_weeks test_weeks)
          (add_weeks step_weeks)
          end_date
          start_date
          1
          fs
unfolding generate_weekly_rolling_folds
generate_weekly_rolling_folds-Rolling start_date end_date train_weeks test_weeks step_weeks h =
    folds_from-Rolling (add_weeks train_weeks) (add_weeks test_weeks) (add_weeks step_weeks)
      (λ d. omega (arith, h)) (λ d. omega arith) (λ d. omega arith) end_date (suc end_date)
      start_date 1 (omega arith)

-- With a step of no week, and a first fold that fits, the loop does not end, however long it runs.
pub generate_weekly_rolling_folds_endless :
    (start_date end_date train_weeks test_weeks fuel : ℕ)
    → start_date + train_weeks * 604_800_000_000 + test_weeks * 604_800_000_000 ≤ end_date
    → generate_weekly_rolling_folds fuel start_date end_date train_weeks test_weeks 0 ≡ none
unfolding generate_weekly_rolling_folds
generate_weekly_rolling_folds_endless start_date end_date train_weeks test_weeks fuel fits =
    folds_from-stuck (add_weeks train_weeks) (add_weeks test_weeks) (add_weeks 0) end_date
      start_date (λ d. omega arith) (ground (arith, fits)) fuel 1
