-- ===== src/Paper/Mark/Rounds.antt =====
-- What a round of `update_mark_prices` does to its position.
use crypto_mas.Prelude.{
  ◌≡◌, refl, ap, ◌∙◌, inl, inr, ◌⊎◌, Bool, true, false, ◌||◌, Option, none, some, List, arith,
  length-append, if◌then◌else◌, Bool-cases, Option-cases,
}
use crypto_mas.Numbers.{Numerics, ◌≤?◌, nought}
use crypto_mas.Domain.{CloseReason, stop_loss, take_profit, Position, FeatureSnapshot}
use crypto_mas.Repository.Positions.{update_mark_price, put}
use crypto_mas.Repository.Positions.Queries.{put-put}
use crypto_mas.Repository.Positions.Listing.{IsRow}
use crypto_mas.Repository.Records.{get_latest}
use crypto_mas.Paper.Calculator.{extract_close_price, calculate_exit_price, calculate_pnl}
use crypto_mas.Paper.Session.{Broker, Call, Pass, ok, Ensures}
use crypto_mas.Paper.Close.{sale_of, price_sale, sold}
use crypto_mas.Paper.Mark.Levels.{
  Stopped, Profits, Trailed, trail-Moves, trailing_pct-Eased, is_stopped-Stopped,
  Stopped-is_stopped, takes_profit-Profits, Profits-takes_profit,
}
use crypto_mas.Paper.Loop.{Round, put-Round}
use crypto_mas.Paper.Mark.{
  atr_of, trailing_pct, is_trailed, is_stopped, takes_profit, pass_over, mark_only, exit,
  store_marked, sell_out, follow, mark_one,
}

not_both : (a : Bool) → a ≡ false → a ≡ true → ⊥
not_both a h k = absurd (cc)

either_true : (a b : Bool) → (a || b) ≡ true → a ≡ false → b ≡ true
either_true true b h k = absurd (cc)
either_true false b h k = h

module _ ⦃n : Numerics⦄ where
  -- The latest close of a position's market, where there is one and it is positive.
  pub market_price : Call → List FeatureSnapshot → Position → Option n.Decimal
  market_price c rows p =
      elim (extract_close_price (get_latest c.exchange p.symbol c.timeframe c.now rows)) [
        | none ↦ none
        | some price ↦ if price ≤? nought then none else some price
      ]

  -- The ATR of the latest snapshot of that market.
  abbrev pub market_atr : Call → List FeatureSnapshot → Position → Option n.Float
  market_atr c rows p = atr_of (get_latest c.exchange p.symbol c.timeframe c.now rows)

  -- The position at a new price, with a stop.
  abbrev pub at_price : Position → n.Decimal → Option n.Decimal → Position
  at_price p price stop = record (update_mark_price p price) { stop_loss_price = stop }

  -- Why a position is sold: for its stop wherever the price has reached that, else for its target.
  abbrev pub Ends : Position → n.Decimal → Option n.Decimal → CloseReason → Type 0
  Ends p price stop reason =
      (Stopped p.side stop price × (reason ≡ stop_loss))
      ⊎ ((¬ Stopped p.side stop price)
          × Profits p.side p.take_profit_price price
          × (reason ≡ take_profit))

  pub data Marked (b : Broker) (c : Call) (rows : List FeatureSnapshot) (p : Position)
      : Position → Type 0 where
    unpriced : {r : Position} → market_price c rows p ≡ none → r ≡ p → Marked b c rows p r
    kept :
        {r : Position} (price : n.Decimal) (stop : Option n.Decimal)
        → market_price c rows p ≡ some price
        → Trailed b.calculator p.side p.entry_price p.stop_loss_price price
            (market_atr c rows p)
            stop
        → ¬ Stopped p.side stop price
        → ¬ Profits p.side p.take_profit_price price
        → r ≡ at_price p price stop
        → Marked b c rows p r
    sells :
        {r : Position} (price x : n.Decimal) (stop : Option n.Decimal) (pnl : n.Decimal × n.Float)
        (reason : CloseReason)
        → market_price c rows p ≡ some price
        → Trailed b.calculator p.side p.entry_price p.stop_loss_price price
            (market_atr c rows p)
            stop
        → Ends p price stop reason
        → calculate_exit_price b.calculator price p.side none false ≡ some x
        → calculate_pnl p.entry_price x p.quantity p.side ≡ some pnl
        → r
          ≡ sold c
              (at_price p price stop)
              (sale_of b.calculator (at_price p price stop) x pnl.0)
              reason
        → Marked b c rows p r

  at_price-id :
      (p : Position) (price : n.Decimal) (stop : Option n.Decimal)
      → (at_price p price stop).id ≡ p.id
  unfolding update_mark_price
  at_price-id p price stop = refl

  -- The code's test of the two levels.
  tests-Ends :
      (p : Position) (price : n.Decimal) (stop : Option n.Decimal)
      → let q = at_price p price stop in
        is_stopped q price || takes_profit q price ≡ true
        → Ends p price stop (if is_stopped q price then stop_loss else take_profit)
  unfolding update_mark_price
  tests-Ends p price stop h =
      let q = at_price p price stop in
      elim (Bool-cases (is_stopped q price)) [
        | inl e ↦ rw e (inl (is_stopped-Stopped q price e, refl))
        | inr e ↦ rw e (
            inr (
              (λ k. not_both _ e (Stopped-is_stopped q price k)),
              takes_profit-Profits q price (either_true _ _ h e),
              refl,
            ))
      ]

  store_marked-positions :
      (b : Broker) (c : Call) (trailed : Bool) (q : Position) (s : Pass)
      → (store_marked b c trailed q s).store.positions ≡ put q s.store.positions
  unfolding store_marked
  store_marked-positions b c true q s = refl
  store_marked-positions b c false q s = refl

  store_marked-snapshots :
      (b : Broker) (c : Call) (trailed : Bool) (q : Position) (s : Pass)
      → (store_marked b c trailed q s).store.snapshots ≡ s.store.snapshots
  unfolding store_marked
  store_marked-snapshots b c true q s = refl
  store_marked-snapshots b c false q s = refl

  module _ (b : Broker) (c : Call) (p : Position) (s : Pass)
      (is_row : IsRow s.store.positions p) where
    pass_over-Round :
        market_price c s.store.snapshots p ≡ none → Round (Marked b c) p s (pass_over b c p s)
    unfolding pass_over
    pass_over-Round e = record {
      became = (p, is_row, unpriced e refl);
      others = λ id h. refl;
      snapshots = refl;
      reported = omega (arith, length-append s.skipped);
    }

    mark_only-Round :
        (price : n.Decimal) (stop : Option n.Decimal) (trailed : Bool)
        → market_price c s.store.snapshots p ≡ some price
        → Trailed b.calculator p.side p.entry_price p.stop_loss_price price
            (market_atr c s.store.snapshots p)
            stop
        → is_stopped (at_price p price stop) price ≡ false
        → takes_profit (at_price p price stop) price ≡ false
        → let q = at_price p price stop in
          Round (Marked b c) p s (mark_only b c q (store_marked b c trailed q s))
    unfolding mark_only store_marked update_mark_price
    mark_only-Round price stop trailed e t not_stopped no_profit =
        let q = at_price p price stop in
        put-Round (Marked b c) p q s _ is_row (at_price-id p price stop)
          (store_marked-positions b c trailed q s) (store_marked-snapshots b c trailed q s)
          (omega (arith, length-append s.executed))
          (kept price stop e t (λ k. not_both _ not_stopped (Stopped-is_stopped q price k))
            (λ k. not_both _ no_profit (Profits-takes_profit q price k)) refl)

    exit-Round :
        (price x : n.Decimal) (stop : Option n.Decimal) (pnl : n.Decimal × n.Float) (trailed : Bool)
        → market_price c s.store.snapshots p ≡ some price
        → Trailed b.calculator p.side p.entry_price p.stop_loss_price price
            (market_atr c s.store.snapshots p)
            stop
        → is_stopped (at_price p price stop) price || takes_profit (at_price p price stop) price
          ≡ true
        → calculate_exit_price b.calculator price p.side none false ≡ some x
        → calculate_pnl p.entry_price x p.quantity p.side ≡ some pnl
        → let q = at_price p price stop in
          Round (Marked b c) p s (
            exit b c q
              (sale_of b.calculator q x pnl.0)
              (is_stopped q price)
              (takes_profit q price)
              (store_marked b c trailed q s))
    unfolding exit sold store_marked
    exit-Round price x stop pnl trailed e t hit ex epnl =
        let q = at_price p price stop in
        let reason = if is_stopped q price then stop_loss else take_profit in
        put-Round (Marked b c) p (sold c q (sale_of b.calculator q x pnl.0) reason) s _ is_row
          (at_price-id p price stop)
          (ap (put _) (store_marked-positions b c trailed q s) ∙ put-put _ q s.store.positions refl)
          (store_marked-snapshots b c trailed q s) (omega (arith, length-append s.executed))
          (sells price x stop pnl reason e t (tests-Ends p price stop hit) ex epnl refl)

    sell_out-Round :
        (price : n.Decimal) (stop : Option n.Decimal) (trailed : Bool)
        → market_price c s.store.snapshots p ≡ some price
        → Trailed b.calculator p.side p.entry_price p.stop_loss_price price
            (market_atr c s.store.snapshots p)
            stop
        → is_stopped (at_price p price stop) price || takes_profit (at_price p price stop) price
          ≡ true
        → let q = at_price p price stop in
          Ensures (Round (Marked b c) p s) (sell_out b c q price (store_marked b c trailed q s))
    unfolding sell_out price_sale update_mark_price
    sell_out-Round price stop trailed e t hit =
        elim (Option-cases (calculate_exit_price b.calculator price p.side none false)) [
          | inl k ↦ rw k tt
          | inr (x, k) ↦
              rw k (elim (Option-cases (calculate_pnl p.entry_price x p.quantity p.side)) [
                | inl m ↦ rw m tt
                | inr (pnl, m) ↦ rw m (exit-Round price x stop pnl trailed e t hit k m)
              ])
        ]

    hit_or_kept :
        (price : n.Decimal) (stop : Option n.Decimal) (trailed : Bool)
        → market_price c s.store.snapshots p ≡ some price
        → Trailed b.calculator p.side p.entry_price p.stop_loss_price price
            (market_atr c s.store.snapshots p)
            stop
        → let q = at_price p price stop in
          let u = store_marked b c trailed q s in
          Ensures (Round (Marked b c) p s) (
            if is_stopped q price || takes_profit q price
            then sell_out b c q price u
            else ok (mark_only b c q u))
    hit_or_kept price stop trailed e t =
        let q = at_price p price stop in
        elim (Bool-cases (is_stopped q price || takes_profit q price)) [
          | inl hit ↦ rw hit (sell_out-Round price stop trailed e t hit)
          | inr open_still ↦
              rw open_still (mark_only-Round price stop trailed e t (ground arith) (ground arith))
        ]

    follow-Round :
        (price : n.Decimal)
        → market_price c s.store.snapshots p ≡ some price
        → Ensures
            (Round (Marked b c) p s)
            (follow b c (update_mark_price p price) price (market_atr c s.store.snapshots p) s)
    unfolding follow update_mark_price
    follow-Round price e =
        let u = update_mark_price p price in
        let atr = market_atr c s.store.snapshots p in
        elim (Option-cases (trailing_pct b.calculator u price atr)) [
          | inl k ↦ rw (k, follow) tt
          | inr (pct, k) ↦
              let (gain, gained, base, distance, tight) =
                trailing_pct-Eased b.calculator u price atr pct k in
              let (stop, same, moved) = trail-Moves b.calculator u price pct in
              rw (k, follow, same)
                (hit_or_kept price stop (is_trailed b.calculator u price pct) e (record {
                  gain = gain;
                  gained = gained;
                  base = base;
                  distance = distance;
                  pct = pct;
                  tight = tight;
                  moved = moved;
                }))
        ]

  pub mark_one-Round :
      (b : Broker) (c : Call) (p : Position) (s : Pass)
      → IsRow s.store.positions p
      → Ensures (Round (Marked b c) p s) (mark_one b c p s)
  unfolding mark_one market_price
  mark_one-Round b c p s is_row =
      let close =
        extract_close_price (get_latest c.exchange p.symbol c.timeframe c.now s.store.snapshots) in
      elim (Option-cases close) [
        | inl e ↦ rw (e, mark_one) (pass_over-Round b c p s is_row (rw (e, market_price)))
        | inr (price, e) ↦ elim (Bool-cases (price ≤? nought)) [
          | inl low ↦
              rw (e, mark_one)
                (rw low (pass_over-Round b c p s is_row (rw (e, market_price) (rw low))))
          | inr high ↦
              rw (e, mark_one)
                (rw high (follow-Round b c p s is_row price (rw (e, market_price) (rw high))))
        ]
      ]
