-- ===== src/Strategy/Signals/Founded.antt =====
-- engine/signal/trend.py: what stands behind a signal.
use crypto_mas.Prelude.{
  Bool, true, false, Option, none, some, ◌≡◌, ◌⊎◌, inl, inr, refl, if◌then◌else◌,
}
use crypto_mas.Numbers.{Numerics, ◌>>=◌}
use crypto_mas.Strategy.Signals.{
  SignalDirection, upward, downward, TradingSignal, TrendInputs, is_bullish, is_bearish, signal_of,
  calculate_strength,
}

-- Of the value, if there is one.
abbrev pub Gets : {A : Type 0} → (A → Type 0) → Option A → Type 0
Gets P none = Unit
Gets P (some a) = P a

Gets-if :
    {A : Type 0} (P : A → Type 0) (b : Bool) (m k : Option A)
    → (b ≡ true → Gets P m)
    → (b ≡ false → Gets P k)
    → Gets P (if b then m else k)
Gets-if P true m k h l = h refl
Gets-if P false m k h l = l refl

pub Gets-then :
    {A B : Type 0} (P : A → Type 0) (m : Option B) (f : B → Option A)
    → ((b : B) → Gets P (f b))
    → Gets P (m >>= f)
Gets-then P none f h = tt
Gets-then P (some b) f h = h b

abbrev pub is_upward : SignalDirection → Bool
is_upward upward = true
is_upward _ = false

abbrev pub is_downward : SignalDirection → Bool
is_downward downward = true
is_downward _ = false

module _ ⦃n : Numerics⦄ where
  -- A signal for a trend has it in the features.
  pub record Founded (o : Option TrendInputs) (s : TradingSignal) : Type 0 where
    pub up :
        (is_upward s.direction ≡ false) ⊎ ((f : TrendInputs) × (o ≡ some f) × (is_bullish f ≡ true))
    pub down :
        (is_downward s.direction ≡ false)
        ⊎ ((f : TrendInputs) × (o ≡ some f) × (is_bearish f ≡ true))

  pub signal_of-Founded : (o : Option TrendInputs) → Gets (Founded o) (signal_of o)
  unfolding signal_of
  signal_of-Founded none = record { up = inl refl; down = inl refl }
  signal_of-Founded (some f) =
      Gets-if (Founded (some f)) (is_bullish f) _ _
        (λ k.
          Gets-then (Founded (some f)) (calculate_strength f true) _
            (λ x. record { up = inr (f, refl, k); down = inl refl }))
        (λ _.
          Gets-if (Founded (some f)) (is_bearish f) _ _
            (λ k.
              Gets-then (Founded (some f)) (calculate_strength f false) _
                (λ x. record { up = inl refl; down = inr (f, refl, k) }))
            (λ _. record { up = inl refl; down = inl refl }))
