-- ===== src/Paper/Mark/Returns.antt =====
-- Where `update_mark_prices` divides, and whether it returns.
use crypto_mas.Paper.Execute.Results.{initial}
use crypto_mas.Paper.Close.{price_sale}
use crypto_mas.Prelude.{
  ◌≡◌, refl, inl, inr, ◌||◌, Option, some, All, if◌then◌else◌, Bool-cases, Option-cases,
}
use crypto_mas.Numbers.{Numerics, IsOrdered, nought, ◌⊖◌, ◌≤?◌}
use crypto_mas.Domain.{is_long, Position, PaperAccount, Store}
use crypto_mas.Repository.Positions.{list_open_positions, update_mark_price}
use crypto_mas.Repository.Records.{get_latest}
use crypto_mas.Paper.Calculator.{RiskCalculator, extract_close_price}
use crypto_mas.Paper.Session.{for_each, Broker, Call, Pass, IsOk, IsOk-bind, for_each-IsOk}
use crypto_mas.Paper.Mark.{
  trailing_pct, trail, is_trailed, is_stopped, takes_profit, store_marked, sell_out, follow,
  mark_one, update_mark_prices, atr_of,
}
use crypto_mas.Paper.Close.Returns.{HasEntry, price_sale-IsOk}

module _ ⦃n : Numerics⦄ where
  trail-HasEntry :
      (c : RiskCalculator) (p : Position) (price pct : n.Decimal)
      → HasEntry p
      → HasEntry (trail c p price pct)
  unfolding trail
  trail-HasEntry c p price pct h = elim (Bool-cases (is_trailed c p price pct)) [
    | inl e ↦ rw e h
    | inr e ↦ rw e h
  ]

  module _ (laws : IsOrdered) where
    open laws use {quotient_by}

    trailing_pct-some :
        (c : RiskCalculator) (p : Position) (price : n.Decimal) (atr : Option n.Float)
        → HasEntry p
        → (pct : n.Decimal) × (trailing_pct c p price atr ≡ some pct)
    unfolding trailing_pct
    trailing_pct-some c p price atr h =
        let (q, at_q) =
          quotient_by (if is_long p.side then price ⊖ p.entry_price else p.entry_price ⊖ price)
            p.entry_price h in
        rw at_q (_, refl)

    follow-IsOk :
        (b : Broker) (c : Call) (p : Position) (price : n.Decimal) (atr : Option n.Float) (s : Pass)
        → HasEntry p
        → IsOk (follow b c p price atr s)
    unfolding follow sell_out
    follow-IsOk b c p price atr s h =
        let (pct, at_pct) = trailing_pct-some b.calculator p price atr h in
        let q = trail b.calculator p price pct in
        let u = store_marked b c (is_trailed b.calculator p price pct) q s in
        rw at_pct (elim (Bool-cases (is_stopped q price || takes_profit q price)) [
          | inl e ↦ rw e (
              IsOk-bind (price_sale b.calculator q price u.store) _
                (price_sale-IsOk laws b.calculator q price u.store
                  (trail-HasEntry b.calculator p price pct h))
                (λ sale. tt))
          | inr e ↦ rw e tt
        ])

    mark_one-IsOk :
        (b : Broker) (c : Call) (p : Position) → HasEntry p → (s : Pass) → IsOk (mark_one b c p s)
    unfolding mark_one update_mark_price
    mark_one-IsOk b c p h s =
        let snapshot = get_latest c.exchange p.symbol c.timeframe c.now s.store.snapshots in
        elim (Option-cases (extract_close_price snapshot)) [
          | inl e ↦ rw (e, mark_one) tt
          | inr (price, e) ↦ elim (Bool-cases (price ≤? nought)) [
            | inl d ↦ rw (e, d, mark_one) tt
            | inr d ↦
                rw (e, d, mark_one)
                  (follow-IsOk b c (update_mark_price p price) price (atr_of snapshot) s h)
          ]
        ]

    -- If no open position of the account has an entry price of zero, then the marking pass returns, and
    -- raises no exception.
    pub update_mark_prices-IsOk :
        (b : Broker) (c : Call) (account : PaperAccount) (s : Store)
        → All HasEntry (list_open_positions c.account_name s.positions)
        → IsOk (update_mark_prices b c account s)
    unfolding update_mark_prices
    update_mark_prices-IsOk b c account s h =
        IsOk-bind
          (for_each (mark_one b c) (list_open_positions c.account_name s.positions)
            (initial account s))
          _
          (for_each-IsOk (mark_one b c) HasEntry (mark_one-IsOk b c)
            (list_open_positions c.account_name s.positions) h (initial account s))
          (λ done. tt)
