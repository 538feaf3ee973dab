-- ===== src/Paper/Execute/Returns.antt =====
-- Where `execute_target_portfolio` divides, and whether it returns.
use crypto_mas.Prelude.{
  ◌||◌, ◌≡◌, refl, sym, subst, inl, inr, false, Option, none, some, List, [], ◌∷◌, All, Bool-cases,
  Option-cases,
}
use crypto_mas.Numbers.{Numerics, IsOrdered, same, nought, ◌≤?◌, ◌<?◌}
use crypto_mas.Domain.{Store, TargetPosition, FeatureSnapshot, PaperAccount, PortfolioTarget}
use crypto_mas.Repository.Positions.{get_open_position}
use crypto_mas.Repository.Records.{get_latest}
use crypto_mas.Paper.Calculator.{
  extract_close_price, is_thin_liquidity_or_excessive_spread, calculate_target_notional,
  calculate_total_cost, calculate_execution_price, calculate_quantity,
}
use crypto_mas.Paper.Calculator.Bounds.{calculate_execution_price-none}
use crypto_mas.Paper.Session.{
  raised, ◌>>=◌, Broker, Call, Pass, for_each, Outcome, ok, IsOk, IsOk-bind, Ensures,
}
use crypto_mas.Paper.Fill.{skip, fill}
use crypto_mas.Paper.Execute.{
  Limits, limits, contains, place, check_size, check_market, execute_one, execute_target_portfolio,
}
use crypto_mas.Paper.Execute.Steps.{Stepped, skips, fills, execute_one-Stepped}
use crypto_mas.Paper.Execute.Results.{initial}

module _ ⦃n : Numerics⦄ where
  abbrev NonZero : Option n.Decimal → Type 0
  NonZero none = Unit
  NonZero (some x) = same x nought ≡ false

  -- The price of an order for a target is not zero, where its market has a close.
  abbrev pub HasPrice : Broker → Call → List FeatureSnapshot → TargetPosition → Type 0
  HasPrice b c rows t =
      elim (extract_close_price (get_latest c.exchange t.symbol c.timeframe c.now rows)) [
        | none ↦ Unit
        | some p ↦ NonZero (calculate_execution_price b.calculator p t.side none false)
      ]

  Stepped-snapshots :
      {b : Broker} {c : Call} {l : Limits} {t : TargetPosition} {s u : Pass}
      → Stepped b c l t s u
      → u.store.snapshots ≡ s.store.snapshots
  unfolding skip fill
  Stepped-snapshots (skips k e) = rw e refl
  Stepped-snapshots (fills f sound e) = rw e refl

  module _ (laws : IsOrdered) (b : Broker) (c : Call) (l : Limits) where
    open laws use {quotient_by}

    place-IsOk :
        (t : TargetPosition) (price notional : n.Decimal) (s : Pass)
        → NonZero (calculate_execution_price b.calculator price t.side none false)
        → IsOk (place b c t price notional s)
    unfolding place calculate_quantity
    place-IsOk t price notional s h =
        let (x, at_x) = calculate_execution_price-none b.calculator price t.side false in
        let (q, at_q) = quotient_by notional x (subst NonZero at_x h) in rw (at_x, at_q) tt

    check_size-IsOk :
        (t : TargetPosition) (price : n.Decimal) (s : Pass)
        → NonZero (calculate_execution_price b.calculator price t.side none false)
        → IsOk (check_size b c l t price s)
    unfolding check_size
    check_size-IsOk t price s h =
        let notional = calculate_target_notional t.target_weight l.equity in
        elim (Bool-cases (notional ≤? nought)) [
          | inl e ↦ rw e tt
          | inr e ↦
              rw e (elim (Bool-cases (s.cash <? (calculate_total_cost b.calculator notional).0)) [
                | inl d ↦ rw d tt
                | inr d ↦ rw d (place-IsOk t price notional s h)
              ])
        ]

    check_market-IsOk :
        (t : TargetPosition) (s : Pass)
        → HasPrice b c s.store.snapshots t
        → IsOk (
            check_market b c l t
              (get_latest c.exchange t.symbol c.timeframe c.now s.store.snapshots)
              s)
    unfolding check_market
    check_market-IsOk t s h =
        let snapshot = get_latest c.exchange t.symbol c.timeframe c.now s.store.snapshots in
        elim (Option-cases (extract_close_price snapshot)) [
          | inl e ↦ rw (e, check_market) tt
          | inr (p, e) ↦
              let priced = rw (e, HasPrice) at h in
              rw (e, check_market)
                (elim (Bool-cases (p ≤? nought)) [
                  | inl d ↦ rw d tt
                  | inr d ↦
                      rw d (elim (Bool-cases (is_thin_liquidity_or_excessive_spread snapshot)) [
                        | inl thin ↦ rw thin tt
                        | inr traded ↦ rw traded (check_size-IsOk t p s priced)
                      ])
                ])
        ]

    execute_one-IsOk :
        (t : TargetPosition) (s : Pass)
        → HasPrice b c s.store.snapshots t
        → IsOk (execute_one b c l t s)
    unfolding execute_one
    execute_one-IsOk t s h =
        elim (Option-cases
          (get_open_position c.account_name c.exchange t.symbol s.store.positions)) [
            | inr (p, e) ↦ rw (e, execute_one) tt
            | inl e ↦
                rw (e, execute_one)
                  (elim (Bool-cases
                    (contains t.symbol l.stopped || contains t.symbol l.whipsawed)) [
                      | inl d ↦ rw d tt
                      | inr d ↦ rw d (check_market-IsOk t s h)
                    ])
          ]

    bind-IsOk :
        {A B : Type 0} (Q : A → Type 0) (m : Outcome A) (f : A → Outcome B)
        → IsOk m
        → Ensures Q m
        → ((a : A) → Q a → IsOk (f a))
        → IsOk (m >>= f)
    bind-IsOk Q (ok a) f h e k = k a e
    bind-IsOk Q (raised s) f h e k = absurd h

    targets-IsOk :
        (ts : List TargetPosition) (s : Pass)
        → All (HasPrice b c s.store.snapshots) ts
        → IsOk (for_each (execute_one b c l) ts s)
    unfolding for_each
    targets-IsOk [] s h = tt
    targets-IsOk (t ∷ ts) s h =
        bind-IsOk (Stepped b c l t s) (execute_one b c l t s) (for_each (execute_one b c l) ts)
          (execute_one-IsOk t s h.0) (execute_one-Stepped b c l t s)
          (λ u r.
            targets-IsOk ts u
              (subst (λ rows. All (HasPrice b c rows) ts) (sym (Stepped-snapshots r)) h.1))

  -- If no target's latest close, after slippage and rounding, is a price of zero, then executing the
  -- targets returns, and raises no exception.
  pub execute_target_portfolio-IsOk :
      (laws : IsOrdered) (b : Broker) (c : Call) (account : PaperAccount) (target : PortfolioTarget)
      (s : Store)
      → All (HasPrice b c s.snapshots) target.target_positions
      → IsOk (execute_target_portfolio b c account target s)
  unfolding execute_target_portfolio
  execute_target_portfolio-IsOk laws b c account target s h =
      IsOk-bind
        (for_each (execute_one b c (limits c account s)) target.target_positions
          (initial account s))
        _ (targets-IsOk laws b c (limits c account s) target.target_positions (initial account s) h)
        (λ done. tt)
