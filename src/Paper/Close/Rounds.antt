-- ===== src/Paper/Close/Rounds.antt =====
-- What a round of `close_positions_not_in_target` does to its position.
use crypto_mas.Prelude.{
  ◌≡◌, refl, inl, inr, true, false, Option, none, some, List, arith, length-append, Bool-cases,
  Option-cases,
}
use crypto_mas.Numbers.{Numerics}
use crypto_mas.Domain.{Level, Reason, Position, FeatureSnapshot, PortfolioTarget}
use crypto_mas.Repository.Positions.Listing.{IsRow}
use crypto_mas.Repository.Records.{get_latest}
use crypto_mas.Paper.Calculator.{extract_close_price, calculate_exit_price, calculate_pnl}
use crypto_mas.Paper.Session.{◌>>=◌, Broker, Call, Pass, ok, Ensures}
use crypto_mas.Paper.Loop.{Round, put-Round}
use crypto_mas.Paper.Close.{
  sale_of, sold, is_kept, find_reason, closing_price, keep, sell, price_sale, close_one,
}

module _ ⦃n : Numerics⦄ where
  -- The price that a position of no use to the target is sold at.
  pub sale_price : Call → List FeatureSnapshot → Position → Option n.Decimal
  sale_price c rows p =
      closing_price p (extract_close_price (get_latest c.exchange p.symbol c.timeframe c.now rows))

  pub data Closed (b : Broker) (c : Call) (target : PortfolioTarget) (rows : List FeatureSnapshot)
      (p : Position) : Position → Type 0 where
    kept :
        {r : Position}
        → is_kept target.target_positions p ≡ true
        → r ≡ p
        → Closed b c target rows p r
    unpriced :
        {r : Position}
        → is_kept target.target_positions p ≡ false
        → sale_price c rows p ≡ none
        → r ≡ p
        → Closed b c target rows p r
    sells :
        {r : Position} (price x : n.Decimal) (pnl : n.Decimal × n.Float)
        → is_kept target.target_positions p ≡ false
        → sale_price c rows p ≡ some price
        → calculate_exit_price b.calculator price p.side none false ≡ some x
        → calculate_pnl p.entry_price x p.quantity p.side ≡ some pnl
        → r ≡ sold c p (sale_of b.calculator p x pnl.0) (find_reason p.symbol target.close_reasons)
        → Closed b c target rows p r

  module _ (b : Broker) (c : Call) (target : PortfolioTarget) (p : Position) (s : Pass)
      (is_row : IsRow s.store.positions p) where
    sell-Round :
        (price x : n.Decimal) (pnl : n.Decimal × n.Float)
        → is_kept target.target_positions p ≡ false
        → sale_price c s.store.snapshots p ≡ some price
        → calculate_exit_price b.calculator price p.side none false ≡ some x
        → calculate_pnl p.entry_price x p.quantity p.side ≡ some pnl
        → Round (Closed b c target) p s (
            sell b c p
              (sale_of b.calculator p x pnl.0)
              (find_reason p.symbol target.close_reasons)
              s)
    unfolding sell
    sell-Round price x pnl out e ex epnl =
        put-Round (Closed b c target) p
          (sold c p (sale_of b.calculator p x pnl.0) (find_reason p.symbol target.close_reasons)) s
          _ is_row refl refl refl (omega (arith, length-append s.executed))
          (sells price x pnl out e ex epnl refl)

    price_sale-Round :
        (price : n.Decimal)
        → is_kept target.target_positions p ≡ false
        → sale_price c s.store.snapshots p ≡ some price
        → Ensures (Round (Closed b c target) p s) (
            price_sale b.calculator p price s.store >>= λ sale.
            ok (sell b c p sale (find_reason p.symbol target.close_reasons) s))
    unfolding price_sale
    price_sale-Round price out e =
        elim (Option-cases (calculate_exit_price b.calculator price p.side none false)) [
          | inl k ↦ rw k tt
          | inr (x, k) ↦
              rw k (elim (Option-cases (calculate_pnl p.entry_price x p.quantity p.side)) [
                | inl m ↦ rw m tt
                | inr (pnl, m) ↦ rw m (sell-Round price x pnl out e k m)
              ])
        ]

    keep-Round :
        (price : Option n.Float) (reason : Reason) (level : Level)
        → Closed b c target s.store.snapshots p p
        → Round (Closed b c target) p s (keep b c p price reason level s)
    unfolding keep
    keep-Round price reason level result = record {
      became = (p, is_row, result);
      others = λ id h. refl;
      snapshots = refl;
      reported = omega (arith, length-append s.skipped);
    }

    pub close_one-Round : Ensures (Round (Closed b c target) p s) (close_one b c target p s)
    unfolding close_one sale_price
    close_one-Round =
        let close =
          extract_close_price
            (get_latest c.exchange p.symbol c.timeframe c.now s.store.snapshots) in
        elim (Bool-cases (is_kept target.target_positions p)) [
          | inl e ↦ rw e (keep-Round _ _ _ (kept e refl))
          | inr e ↦ rw e (elim (Option-cases (closing_price p close)) [
            | inl k ↦ rw k (keep-Round _ _ _ (unpriced e k refl))
            | inr (price, k) ↦ rw k (price_sale-Round price e k)
          ])
        ]
