-- ===== src/Folds.antt =====
-- engine/optimization/fold_generator.py. A datetime is its number of microseconds;
-- `dateutil.relativedelta` is a parameter, the addition of months to a date.
pub mod Results
use crypto_mas.Prelude.{
  ℕ, zero, suc, ◌+◌, ◌*◌, Option, none, some, List, [], ◌∷◌, ltb, if◌then◌else◌,
}

pub record Fold : Type 0 where
  pub fold_id : ℕ
  pub train_start : ℕ
  pub train_end : ℕ
  pub test_start : ℕ
  pub test_end : ℕ

-- The fold that starts at a date, where `train` and `test` go to the end of a period.
pub fold_at : (ℕ → ℕ) → (ℕ → ℕ) → ℕ → ℕ → Fold
fold_at train test start id = record {
  fold_id = id;
  train_start = start;
  train_end = train start;
  test_start = train start;
  test_end = test (train start);
}

abbrev pub cons_to : Fold → Option (List Fold) → Option (List Fold)
cons_to f none = none
cons_to f (some fs) = some (f ∷ fs)

-- The loop of both methods, with fuel: `none` is a loop that has not ended.
pub folds_from : (ℕ → ℕ) → (ℕ → ℕ) → (ℕ → ℕ) → ℕ → ℕ → ℕ → ℕ → Option (List Fold)
unfolding fold_at
folds_from train test slide end_date zero start id = none
folds_from train test slide end_date (suc fuel) start id =
    let rest = folds_from train test slide end_date fuel (slide start) (id + 1) in
    if ltb end_date (test (train start))
    then some []
    else cons_to (fold_at train test start id) rest

module _ (add_months : ℕ → ℕ → ℕ) where
  pub generate_rolling_folds : ℕ → ℕ → ℕ → ℕ → ℕ → Option (List Fold)
  unfolding folds_from
  generate_rolling_folds fuel start_date end_date train_months test_months =
      folds_from (add_months train_months) (add_months test_months) (add_months test_months)
        end_date fuel start_date 1

abbrev pub add_weeks : ℕ → ℕ → ℕ
add_weeks weeks date = date + weeks * 604_800_000_000

pub generate_weekly_rolling_folds : ℕ → ℕ → ℕ → ℕ → ℕ → ℕ → Option (List Fold)
unfolding folds_from
generate_weekly_rolling_folds fuel start_date end_date train_weeks test_weeks step_weeks =
    folds_from (add_weeks train_weeks) (add_weeks test_weeks) (add_weeks step_weeks) end_date fuel
      start_date 1
