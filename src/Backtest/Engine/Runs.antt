-- ===== src/Backtest/Engine/Runs.antt =====
-- engine/backtest/engine.py: a whole run returns, and ends flat.
use crypto_mas.Prelude.Dict.Laws.{str_eq_refl}
use crypto_mas.Risk.Models.{last}
use crypto_mas.Portfolio.Weights.{side_of}
use crypto_mas.Backtest.Engine.Log.{open-Sound, close_holding-Sound, find-pop, Sound, Returns}
use crypto_mas.Prelude.Dict.{find}
use crypto_mas.Prelude.{
  ◌≡◌, refl, ap, ◌∙◌, false, Option, none, some, List, [], ◌∷◌, String, Bool-cases, Option-cases,
  All, inl, inr, ltb, length, ℕ,
}
use crypto_mas.Numbers.{◌>>=◌, is_zero, Numerics}
use crypto_mas.Domain.{is_long, long, short, PositionSide, FeatureSnapshot}
use crypto_mas.Strategy.{TradingDecision, is_consider}
use crypto_mas.Backtest.Engine.{
  leave, exit_reason, levels, step, loop, finish, run, slide, price_of, gain_pct, enter,
  process_decision, manage,
}
use crypto_mas.Backtest.Book.{close_holding, Holding, open_price, open_holding, BacktestEngine}

pub Returns-bind {ℓ κ} :
    {A : Type ℓ} {B : Type κ} (P : A → Type 0) (Q : B → Type 0) (m : Option A) (f : A → Option B)
    → Returns P m
    → ((a : A) → P a → Returns Q (f a))
    → Returns Q (m >>= f)
Returns-bind P Q none f h k = absurd h
Returns-bind P Q (some a) f h k = k a h

module _ ⦃n : Numerics⦄ where
  open n use {Float, float_lit, float_add, float_sub, float_mul}

  -- A price at which an order of either side is not filled for nothing.
  abbrev pub Tradable : Float → Float → Type 0
  Tradable slippage price =
      (is_zero (float_mul price (float_add (float_lit 1 0) slippage)) ≡ false)
      × (is_zero (float_mul price (float_sub (float_lit 1 0) slippage)) ≡ false)

  open_price_nonzero :
      (slippage : Float) (e : BacktestEngine) (side : PositionSide) (price : Float)
      → e.slippage_pct ≡ slippage
      → Tradable slippage price
      → is_zero (open_price e side price) ≡ false
  open_price_nonzero slippage e long price same h =
      ap (λ s. is_zero (float_mul price (float_add (float_lit 1 0) s))) same ∙ h.0
  open_price_nonzero slippage e short price same h =
      ap (λ s. is_zero (float_mul price (float_sub (float_lit 1 0) s))) same ∙ h.1

  module _ (slippage : Float) where
    leave-Sound :
        (d : TradingDecision) (price : Float) (now : ℕ) (h : Holding) (o : Option String)
        (e : BacktestEngine)
        → find d.symbol e.positions ≡ some h
        → Sound slippage e
        → Sound slippage (leave d price now h o e)
    unfolding leave
    leave-Sound d price now h none e held s = s
    leave-Sound d price now h (some reason) e held s =
        close_holding-Sound slippage d.symbol h price now reason e held s

    gain_pct-Returns :
        (h : Holding) (price : Float)
        → is_zero h.entry_price ≡ false
        → Returns (λ x. Unit {0}) (gain_pct h price)
    unfolding gain_pct
    gain_pct-Returns h price entry = elim (Bool-cases (is_long h.side)) [
      | inl l ↦ rw (l, entry) tt
      | inr l ↦ rw (l, entry) tt
    ]

    manage-Returns :
        (d : TradingDecision) (price : Float) (now : ℕ) (atr : Option Float) (h : Holding)
        (e : BacktestEngine)
        → find d.symbol e.positions ≡ some h
        → Sound slippage e
        → Returns (Sound slippage) (manage d price now atr h e)
    unfolding manage
    manage-Returns d price now atr h e held s =
        Returns-bind (λ x. Unit {0}) (Sound slippage) (gain_pct h price) _
          (gain_pct-Returns h price (s.priced d.symbol h held))
          (λ pct _.
            leave-Sound d price now h (exit_reason (levels atr price) h.side d.action pct) e held s)

    open_holding-Returns :
        (d : TradingDecision) (price : Float) (now : ℕ) (e : BacktestEngine)
        → find d.symbol e.positions ≡ none
        → Tradable slippage price
        → Sound slippage e
        → Returns (Sound slippage) (open_holding d price now e)
    unfolding open_holding
    open_holding-Returns d price now e free t s =
        let entry = open_price_nonzero slippage e (side_of d.action) price s.same_slippage t in
        rw entry (open-Sound slippage _ d.symbol _ _ e free refl refl refl refl refl refl entry s)

    enter-Returns :
        (d : TradingDecision) (price : Float) (now : ℕ) (e : BacktestEngine)
        → Tradable slippage price
        → Sound slippage e
        → Returns (Sound slippage) (enter d price now e)
    unfolding enter
    enter-Returns d price now e t s = elim (Option-cases (find d.symbol e.positions)) [
      | inr (h, held) ↦ rw (held, enter) s
      | inl free ↦
          rw (free, enter)
            (elim (Bool-cases (is_consider d.action)) [
              | inl c ↦ rw c (open_holding-Returns d price now e free t s)
              | inr c ↦ rw c s
            ])
    ]

    process_decision-Returns :
        (d : TradingDecision) (price : Float) (now : ℕ) (atr : Option Float) (e : BacktestEngine)
        → Tradable slippage price
        → Sound slippage e
        → Returns (Sound slippage) (process_decision d price now atr e)
    unfolding process_decision
    process_decision-Returns d price now atr e t s =
        Returns-bind (Sound slippage) (Sound slippage) _ (enter d price now)
          (elim (Option-cases (find d.symbol e.positions)) [
            | inr (h, held) ↦ rw held (manage-Returns d price now atr h e held s)
            | inl free ↦ rw free s
          ])
          (λ e' s'. enter-Returns d price now e' t s')

    module _ (decide : List FeatureSnapshot → Option TradingDecision) where
      step-Returns :
          (window : List FeatureSnapshot) (x : FeatureSnapshot) (e : BacktestEngine)
          → Tradable slippage (price_of x)
          → Sound slippage e
          → Returns (Sound slippage) (step decide window x e)
      unfolding step
      step-Returns window x e t s = elim (Bool-cases (ltb (length window) 5)) [
        | inl c ↦ rw c s
        | inr c ↦ rw c (elim (Option-cases (decide window)) [
          | inl o ↦ rw o s
          | inr (d, o) ↦
              rw o (process_decision-Returns d (price_of x) x.timestamp x.features.atr_14 e t s)
        ])
      ]

      loop-Returns :
          (window xs : List FeatureSnapshot) (e : BacktestEngine)
          → All (λ x. Tradable slippage (price_of x)) xs
          → Sound slippage e
          → Returns (Sound slippage) (loop decide window xs e)
      unfolding loop
      loop-Returns window [] e t s = s
      loop-Returns window (x ∷ xs) e t s =
          Returns-bind (Sound slippage) (Sound slippage) (step decide (slide window x) x e)
            (λ later. loop decide (slide window x) xs later)
            (step-Returns (slide window x) x e t.0 s)
            (λ e' s'. loop-Returns (slide window x) xs e' t.1 s')

      last-some : {A : Type 0} (x : A) (xs : List A) → (y : A) × (last (x ∷ xs) ≡ some y)
      last-some x [] = (x, refl)
      last-some x (y ∷ ys) = last-some y ys

      -- The run is over: nothing is open in the symbol, and the log says what is open in every other.
      abbrev pub Flat : String → BacktestEngine → Type 0
      Flat symbol e = Sound slippage e × (find symbol e.positions ≡ none)

      finish-Flat :
          (symbol : String) (x : FeatureSnapshot) (xs : List FeatureSnapshot) (e : BacktestEngine)
          → Sound slippage e
          → Flat symbol (finish decide symbol (x ∷ xs) e)
      unfolding finish close_holding
      finish-Flat symbol x xs e s =
          let (y, e1) = last-some x xs in
          elim (Option-cases (find symbol e.positions)) [
            | inl free ↦ rw (e1, free, finish) (s, free)
            | inr (h, held) ↦
                rw (e1, held, finish)
                  (let end = close_holding symbol h (price_of y) y.timestamp "End of Backtest" e in
                    (
                      close_holding-Sound slippage symbol h (price_of y) y.timestamp
                          "End of Backtest" e held s,
                      find-pop symbol symbol e.positions ∙ rw (str_eq_refl symbol) refl,
                    ))
          ]

      -- If no order would be filled at a price of zero, and the engine has a log that says what is open
      -- and started with a balance above zero, then a run over one snapshot or more returns, whatever the strategy decides: it raises
      -- nothing, and nothing is open in its symbol in the end. In the log each trade that opens is
      -- followed by one that closes, of its side and quantity, before another opens in that symbol;
      -- and what is open in other symbols is as the last trade says.
      pub run-Returns :
          (symbol : String) (x : FeatureSnapshot) (xs : List FeatureSnapshot) (e : BacktestEngine)
          → All (λ y. Tradable slippage (price_of y)) (x ∷ xs)
          → Sound slippage e
          → Returns (Flat symbol) (run decide symbol (x ∷ xs) e)
      unfolding run
      run-Returns symbol x xs e t s =
          Returns-bind (Sound slippage) (Flat symbol) (loop decide [] (x ∷ xs) e) _
            (loop-Returns [] (x ∷ xs) e t s) (λ e' s'. finish-Flat symbol x xs e' s')
