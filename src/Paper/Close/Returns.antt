-- ===== src/Paper/Close/Returns.antt =====
-- Where `close_positions_not_in_target` divides, and whether it returns.
use crypto_mas.Paper.Execute.Results.{initial}
use crypto_mas.Prelude.{◌≡◌, inl, inr, false, All, if◌then◌else◌, Bool-cases, Option-cases}
use crypto_mas.Numbers.{◌⊖◌, Numerics, IsOrdered, same, nought}
use crypto_mas.Domain.{is_long, Position, PaperAccount, PortfolioTarget, Store}
use crypto_mas.Repository.Positions.{list_open_positions}
use crypto_mas.Repository.Records.{get_latest}
use crypto_mas.Paper.Calculator.{RiskCalculator, extract_close_price, calculate_pnl}
use crypto_mas.Paper.Calculator.Bounds.{calculate_exit_price-none}
use crypto_mas.Paper.Session.{for_each, Broker, Call, Pass, IsOk, IsOk-bind, for_each-IsOk}
use crypto_mas.Paper.Close.{
  is_kept, closing_price, price_sale, close_one, close_positions_not_in_target,
}

module _ ⦃n : Numerics⦄ where
  abbrev pub HasEntry : Position → Type 0
  HasEntry p = same p.entry_price nought ≡ false

  module _ (laws : IsOrdered) where
    open laws use {quotient_by}

    pub price_sale-IsOk :
        (c : RiskCalculator) (p : Position) (price : n.Decimal) (s : Store)
        → HasEntry p
        → IsOk (price_sale c p price s)
    unfolding price_sale calculate_pnl
    price_sale-IsOk c p price s h =
        let (x, at_x) = calculate_exit_price-none c price p.side false in
        let (q, at_q) =
          quotient_by (if is_long p.side then x ⊖ p.entry_price else p.entry_price ⊖ x)
            p.entry_price h in
        rw (at_x, at_q) tt

    close_one-IsOk :
        (b : Broker) (c : Call) (target : PortfolioTarget) (p : Position)
        → HasEntry p
        → (s : Pass) → IsOk (close_one b c target p s)
    unfolding close_one
    close_one-IsOk b c target p h s =
        let close =
          extract_close_price
            (get_latest c.exchange p.symbol c.timeframe c.now s.store.snapshots) in
        elim (Bool-cases (is_kept target.target_positions p)) [
          | inl e ↦ rw e tt
          | inr e ↦ elim (Option-cases (closing_price p close)) [
            | inl d ↦ rw (e, d, close_one) tt
            | inr (price, d) ↦
                rw (e, d, close_one)
                  (IsOk-bind (price_sale b.calculator p price s.store) _
                    (price_sale-IsOk b.calculator p price s.store h) (λ sale. tt))
          ]
        ]

    -- If no open position of the account has an entry price of zero, then the closing pass returns, and
    -- raises no exception.
    pub close_positions_not_in_target-IsOk :
        (b : Broker) (c : Call) (account : PaperAccount) (target : PortfolioTarget) (s : Store)
        → All HasEntry (list_open_positions c.account_name s.positions)
        → IsOk (close_positions_not_in_target b c account target s)
    unfolding close_positions_not_in_target
    close_positions_not_in_target-IsOk b c account target s h =
        IsOk-bind
          (for_each (close_one b c target) (list_open_positions c.account_name s.positions)
            (initial account s))
          _
          (for_each-IsOk (close_one b c target) HasEntry (close_one-IsOk b c target)
            (list_open_positions c.account_name s.positions) h (initial account s))
          (λ done. tt)
