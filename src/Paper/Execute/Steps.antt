-- ===== src/Paper/Execute/Steps.antt =====
-- The rounds of `execute_target_portfolio` as a step relation.
use crypto_mas.Prelude.{
  ◌≡◌, refl, inl, inr, false, Option, none, List, [], ◌∷◌, Bool-cases, Option-cases,
}
use crypto_mas.Numbers.{Numerics, ◌≤?◌, ◌<?◌, nought}
use crypto_mas.Domain.{TargetPosition, FeatureSnapshot}
use crypto_mas.Repository.Positions.{get_open_position}
use crypto_mas.Repository.Records.{get_latest}
use crypto_mas.Paper.Calculator.{
  extract_close_price, is_thin_liquidity_or_excessive_spread, calculate_target_notional,
  calculate_total_cost, calculate_execution_price, calculate_quantity,
}
use crypto_mas.Paper.Session.{Broker, Call, Pass, for_each, Ensures, Ensures-bind, Ensures-map}
use crypto_mas.Paper.Fill.{Skip, skip, Fill, fill}
use crypto_mas.Paper.Execute.{Limits, contains, place, check_size, check_market, execute_one}

module _ ⦃n : Numerics⦄ where
  -- A filled order has passed every check.
  pub record IsSound (b : Broker) (c : Call) (l : Limits) (t : TargetPosition) (s : Pass) (f : Fill)
      : Type 0 where
    pub fresh : get_open_position c.account_name c.exchange t.symbol s.store.positions ≡ none
    pub not_stopped : contains t.symbol l.stopped ≡ false
    pub not_whipsawed : contains t.symbol l.whipsawed ≡ false
    pub price_positive : f.price ≤? nought ≡ false
    pub sized : f.notional ≡ calculate_target_notional t.target_weight l.equity
    pub notional_positive : f.notional ≤? nought ≡ false
    pub covered : s.cash <? (calculate_total_cost b.calculator f.notional).0 ≡ false

  pub data Stepped (b : Broker) (c : Call) (l : Limits) (t : TargetPosition) (s : Pass)
      : Pass → Type 0 where
    skips : {s' : Pass} (k : Skip) → s' ≡ skip b c t k s → Stepped b c l t s s'
    fills :
        {s' : Pass} (f : Fill) → IsSound b c l t s f → s' ≡ fill b c t f s → Stepped b c l t s s'

  module _ (b : Broker) (c : Call) (l : Limits) (t : TargetPosition) (s : Pass) where
    place-Stepped :
        (price notional : n.Decimal)
        → ((x q : n.Decimal)
            → IsSound b c l t s
                (record { price = price; execution_price = x; quantity = q; notional = notional }))
        → Ensures (Stepped b c l t s) (place b c t price notional s)
    unfolding place
    place-Stepped price notional sound =
        elim (Option-cases (calculate_execution_price b.calculator price t.side none false)) [
          | inl e ↦ rw e tt
          | inr (x, e) ↦ rw e (elim (Option-cases (calculate_quantity notional x)) [
            | inl e' ↦ rw e' tt
            | inr (q, e') ↦ rw e' (fills _ (sound x q) refl)
          ])
        ]

    check_size-Stepped :
        (price : n.Decimal)
        → ((x q : n.Decimal)
            → let notional = calculate_target_notional t.target_weight l.equity in
              notional ≤? nought ≡ false
              → s.cash <? (calculate_total_cost b.calculator notional).0 ≡ false
              → IsSound b c l t s (record {
                price = price;
                execution_price = x;
                quantity = q;
                notional = notional;
              }))
        → Ensures (Stepped b c l t s) (check_size b c l t price s)
    unfolding check_size
    check_size-Stepped price sound =
        let notional = calculate_target_notional t.target_weight l.equity in
        elim (Bool-cases (notional ≤? nought)) [
          | inl e ↦ rw e (skips _ refl)
          | inr e ↦
              rw e (elim (Bool-cases (s.cash <? (calculate_total_cost b.calculator notional).0)) [
                | inl e' ↦ rw e' (skips _ refl)
                | inr e' ↦ rw e' (place-Stepped price notional (λ x q. sound x q e e'))
              ])
        ]

    check_market-Stepped :
        (snapshot : Option FeatureSnapshot)
        → ((p x q : n.Decimal)
            → let notional = calculate_target_notional t.target_weight l.equity in
              p ≤? nought ≡ false
              → notional ≤? nought ≡ false
              → s.cash <? (calculate_total_cost b.calculator notional).0 ≡ false
              → IsSound b c l t s
                  (record { price = p; execution_price = x; quantity = q; notional = notional }))
        → Ensures (Stepped b c l t s) (check_market b c l t snapshot s)
    unfolding check_market
    check_market-Stepped snapshot sound = elim (Option-cases (extract_close_price snapshot)) [
      | inl e ↦ rw (e, check_market) (skips _ refl)
      | inr (p, e) ↦
          rw (e, check_market)
            (elim (Bool-cases (p ≤? nought)) [
              | inl e' ↦ rw e' (skips _ refl)
              | inr e' ↦ rw e' (elim (Bool-cases (is_thin_liquidity_or_excessive_spread snapshot)) [
                | inl thin ↦ rw thin (skips _ refl)
                | inr traded ↦ rw traded (check_size-Stepped p (λ x q. sound p x q e'))
              ])
            ])
    ]

    pub execute_one-Stepped : Ensures (Stepped b c l t s) (execute_one b c l t s)
    unfolding execute_one
    execute_one-Stepped =
        elim (Option-cases
          (get_open_position c.account_name c.exchange t.symbol s.store.positions)) [
            | inr (p, e) ↦ rw (e, execute_one) (skips _ refl)
            | inl e ↦
                rw (e, execute_one)
                  (elim (Bool-cases (contains t.symbol l.stopped)) [
                    | inl stopped ↦ rw stopped (skips _ refl)
                    | inr running ↦ rw running (elim (Bool-cases (contains t.symbol l.whipsawed)) [
                      | inl whipsawed ↦ rw whipsawed (skips _ refl)
                      | inr calm ↦ rw calm (
                          check_market-Stepped
                            (get_latest c.exchange t.symbol c.timeframe c.now s.store.snapshots)
                            (λ p x q h k m. record {
                              fresh = e;
                              not_stopped = running;
                              not_whipsawed = calm;
                              price_positive = h;
                              sized = refl;
                              notional_positive = k;
                              covered = m;
                            }))
                    ])
                  ])
          ]

  -- The rounds of a pass over a list of targets.
  pub data Run (b : Broker) (c : Call) (l : Limits)
      : Pass → List TargetPosition → Pass → Type 0 where
    done : {s : Pass} → Run b c l s [] s
    round :
        {t : TargetPosition} {ts : List TargetPosition} {s u v : Pass}
        → Stepped b c l t s u
        → Run b c l u ts v
        → Run b c l s (t ∷ ts) v

  pub for_each-Run :
      (b : Broker) (c : Call) (l : Limits) (ts : List TargetPosition) (s : Pass)
      → Ensures (Run b c l s ts) (for_each (execute_one b c l) ts s)
  unfolding for_each
  for_each-Run b c l [] s = done
  for_each-Run b c l (t ∷ ts) s =
      Ensures-bind (Stepped b c l t s) (Run b c l s (t ∷ ts)) (execute_one b c l t s)
        (for_each (execute_one b c l) ts) (execute_one-Stepped b c l t s)
        (λ u step.
          Ensures-map (Run b c l u ts) (Run b c l s (t ∷ ts)) (for_each (execute_one b c l) ts u)
            (λ v. round step) (for_each-Run b c l ts u))
