-- ===== src/Backtest/Report/Counts.antt =====
-- engine/backtest/engine.py: the trades that the report counts, beside those that open.
use crypto_mas.Prelude.Dict.Laws.{str_eq_refl}
use crypto_mas.Prelude.{
  length-append, filter-append, inr, inl, Bool-cases, ℕ, ◌+◌, ◌≡◌, refl, ap, ◌∙◌, subst, Bool, true,
  false, not, ◌&&◌, Option, none, some, List, [], ◌∷◌, ◌++◌, String, str_eq, if◌then◌else◌, arith,
  All, length, filter,
}
use crypto_mas.Numbers.{is_zero, float_lt, Numerics}
use crypto_mas.Domain.{FeatureSnapshot}
use crypto_mas.Strategy.{TradingDecision}
use crypto_mas.Backtest.Book.{Holding, LoggedTrade, BacktestEngine}
use crypto_mas.Backtest.Engine.{run, price_of}
use crypto_mas.Backtest.Engine.Log.{Replays, nothing, another, opens, closes, Sound, Returns}
use crypto_mas.Backtest.Engine.Runs.{Returns-bind, Tradable, run-Returns}
use crypto_mas.Backtest.Report.{pnl_of, generate_report, drawdown, is_closing, closed_trades}

-- What one more entry adds to a count.
length-filter {ℓ} :
    {A : Type ℓ} (p : A → Bool) (xs : List A) (x : A) (b : Bool)
    → p x ≡ b
    → length (filter p (xs ++ x ∷ [])) ≡ length (filter p xs) + (if b then 1 else 0)
length-filter p xs x b same =
    let last : length (filter p (x ∷ [])) ≡ (if b then 1 else 0) = elim (Bool-cases b) [
      | inl q ↦ rw (same, q) refl
      | inr q ↦ rw (same, q) refl
    ] in
    ap length (filter-append p xs (x ∷ []))
    ∙ length-append (filter p xs) (filter p (x ∷ []))
    ∙ ap (λ k. length (filter p xs) + k) last

Returns-map {ℓ} :
    {A : Type ℓ} {P : A → Type 0} (Q : A → Type 0) (m : Option A)
    → Returns P m
    → ((a : A) → P a → Q a)
    → Returns Q m
Returns-map Q none h k = h
Returns-map Q (some a) h k = k a h

module _ ⦃n : Numerics⦄ where
  abbrev pub opened_trades : String → List LoggedTrade → List LoggedTrade
  opened_trades symbol ts = filter (λ t. not (is_closing t.kind) && str_eq t.symbol symbol) ts

  abbrev held_count : Option Holding → ℕ
  held_count none = 0
  held_count (some h) = 1

  counts :
      (t : String) {ts : List LoggedTrade} {h : Option Holding}
      → Replays t ts h
      → length (opened_trades t ts) ≡ length (closed_trades t ts) + held_count h
  unfolding closed_trades
  counts t nothing = refl
  counts t (another before x r other e) =
      let a =
        length-filter (λ y. not (is_closing y.kind) && str_eq y.symbol t) before x false
          (ground arith) in
      let b =
        length-filter (λ y. is_closing y.kind && str_eq y.symbol t) before x false (ground arith) in
      rw (e, a, b) (omega (arith, counts t r))
  counts t (opens before x r kind named side quantity price fee e) =
      let here : str_eq x.symbol t ≡ true = rw named (str_eq_refl t) in
      let a =
        length-filter (λ y. not (is_closing y.kind) && str_eq y.symbol t) before x true
          (rw (kind, here) refl) in
      let b =
        length-filter (λ y. is_closing y.kind && str_eq y.symbol t) before x false (rw kind refl) in
      rw (e, a, b) (omega (arith, counts t r))
  counts t (closes before h x r kind named side quantity e) =
      let here : str_eq x.symbol t ≡ true = rw named (str_eq_refl t) in
      let a =
        length-filter (λ y. not (is_closing y.kind) && str_eq y.symbol t) before x false
          (rw kind refl) in
      let b =
        length-filter (λ y. is_closing y.kind && str_eq y.symbol t) before x true
          (rw (kind, here) refl) in
      rw (e, a, b) (omega (arith, counts t r))

  -- The order of floats, where none is NaN.
  abbrev pub LtTrans : Type 0
  LtTrans = (x y z : n.Float) → float_lt x y ≡ true → float_lt y z ≡ true → float_lt x z ≡ true

  positive-is_zero : (x : n.Float) → float_lt (n.float_lit 0 0) x ≡ true → is_zero x ≡ false
  positive-is_zero x h = ground arith

  module _ (lt_trans : LtTrans) where
    drawdown-Returns :
        (ts : List LoggedTrade) (equity peak max_dd : n.Float)
        → float_lt (n.float_lit 0 0) peak ≡ true
        → Returns (λ x. Unit {0}) (drawdown ts equity peak max_dd)
    unfolding drawdown
    drawdown-Returns [] equity peak max_dd h = tt
    drawdown-Returns (t ∷ ts) equity peak max_dd h =
        let equity' = n.float_add equity (pnl_of t) in
        let peak' = if float_lt peak equity' then equity' else peak in
        let h' : float_lt (n.float_lit 0 0) peak' ≡ true =
          elim (Bool-cases (float_lt peak equity')) [
            | inl q ↦ rw q (lt_trans (n.float_lit 0 0) peak equity' h q)
            | inr q ↦ rw q h
          ] in
        rw (positive-is_zero peak' h') (drawdown-Returns ts equity' peak' _ h')

    generate_report-Counts :
        (symbol : String) (e : BacktestEngine)
        → float_lt (n.float_lit 0 0) e.initial_balance ≡ true
        → Replays symbol e.trades none
        → Returns
            (λ r. r.total_trades ≡ length (opened_trades symbol e.trades))
            (generate_report symbol e)
    unfolding generate_report
    generate_report-Counts symbol e funded r =
        Returns-bind (λ x. Unit {0}) _ _ _
          (drawdown-Returns (closed_trades symbol e.trades) e.initial_balance e.initial_balance
            (n.float_lit 0 0) funded)
          (λ dd _. rw (positive-is_zero e.initial_balance funded) (omega (arith, counts symbol r)))

    -- Where the order of floats is transitive, no order would be filled at a price of zero, and the
    -- engine has a log that says what is open and started with a balance above zero: a run over one
    -- snapshot or more gives a report, and the report counts as many trades as the log has that open a
    -- position in the symbol.
    pub run-generate_report :
        (slippage : n.Float) (decide : List FeatureSnapshot → Option TradingDecision)
        (symbol : String) (x : FeatureSnapshot) (xs : List FeatureSnapshot) (e : BacktestEngine)
        → All (λ y. Tradable slippage (price_of y)) (x ∷ xs)
        → Sound slippage e
        → Returns
            (λ done.
              Returns
                (λ r. r.total_trades ≡ length (opened_trades symbol done.trades))
                (generate_report symbol done))
            (run decide symbol (x ∷ xs) e)
    run-generate_report slippage decide symbol x xs e t s =
        Returns-map _ (run decide symbol (x ∷ xs) e) (run-Returns slippage decide symbol x xs e t s)
          (λ done flat.
            generate_report-Counts symbol done flat.0.funded
              (subst (Replays symbol done.trades) flat.1 (flat.0.faithful symbol)))
