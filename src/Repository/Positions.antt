-- ===== src/Repository/Positions.antt =====
-- domain/repositories/position_repository.py
pub mod Queries
pub mod Listing
use crypto_mas.Prelude.{
  ℕ, ◌+◌, ◌*◌, Bool, true, false, ◌&&◌, not, Option, none, some, List, [], ◌∷◌, ◌++◌, map, String,
  leb, ltb, ◌==◌, str_eq, if◌then◌else◌, filter, any, length, take,
}
use crypto_mas.Numbers.{Numerics, ◌⊖◌, ◌⊗◌, ◌<?◌, same, nought, abs}
use crypto_mas.Domain.{
  PositionSide, is_long, PositionStatus, opened, closed, is_opened, StrategyMode, CloseReason,
  is_stop_loss, Position, Store,
}

-- `timedelta(minutes=m)`, in microseconds.
abbrev pub minutes : ℕ → ℕ
minutes m = m * 60_000_000

module _ ⦃n : Numerics⦄ where
  open n use {Decimal, quantize}

  unfoldable pub of_account : String → Position → Bool
  of_account account p = str_eq p.account_name account

  unfoldable pub in_market : String → String → Position → Bool
  unfolding of_account
  in_market account exchange p = of_account account p && str_eq p.exchange exchange

  -- `closed_at >= cutoff`, where `cutoff` is `time_now` less the span. NULL compares to nothing.
  unfoldable pub closed_since : ℕ → ℕ → Position → Bool
  closed_since now span p = elim p.closed_at [ none ↦ false | some t ↦ leb now (t + span) ]

  pub insert_by_opening : Position → List Position → List Position
  insert_by_opening p [] = p ∷ []
  insert_by_opening p (q ∷ qs) =
      let rest = insert_by_opening p qs in
      if ltb p.opened_at q.opened_at then p ∷ q ∷ qs else q ∷ rest

  pub sort_into : List Position → List Position → List Position
  unfolding insert_by_opening
  sort_into done [] = done
  sort_into done (p ∷ rest) = sort_into (insert_by_opening p done) rest

  -- `order_by(opened_at.asc())`. Rows that were opened together keep their order.
  pub sort_by_opening : List Position → List Position
  unfolding sort_into
  sort_by_opening = sort_into []

  unfoldable pub list_open_positions : String → List Position → List Position
  unfolding sort_by_opening of_account
  list_open_positions account ps =
      sort_by_opening (filter (λ p. of_account account p && is_opened p.status) ps)

  -- The rows that `get_open_position` and `get_open_position_symbols` look for.
  pub is_open_in : String → String → Position → Bool
  unfolding in_market
  is_open_in account exchange p = in_market account exchange p && is_opened p.status

  abbrev pub first {ℓ} : {A : Type ℓ} → List A → Option A
  first [] = none
  first (x ∷ xs) = some x

  unfoldable pub get_open_position : String → String → String → List Position → Option Position
  unfolding is_open_in
  get_open_position account exchange symbol ps =
      first (filter (λ p. is_open_in account exchange p && str_eq p.symbol symbol) ps)

  -- The closed rows of the market that closed within the span, by a stop.
  unfoldable pub is_recent_stop : String → String → ℕ → ℕ → Position → Bool
  unfolding in_market closed_since
  is_recent_stop account exchange now span p =
      in_market account exchange p
      && not (is_opened p.status)
      && is_stop_loss p.close_reason
      && closed_since now span p

  pub has_recent_stop_loss : String → String → String → ℕ → ℕ → List Position → Bool
  unfolding is_recent_stop
  has_recent_stop_loss account exchange symbol now cooldown ps =
      any (λ p. is_recent_stop account exchange now (minutes cooldown) p && str_eq p.symbol symbol)
        ps

  unfoldable pub get_open_position_symbols : String → String → List Position → List String
  unfolding is_open_in
  get_open_position_symbols account exchange ps =
      map (λ p. p.symbol) (filter (is_open_in account exchange) ps)

  unfoldable pub get_recent_stop_loss_symbols :
      String → String → ℕ → ℕ → List Position → List String
  unfolding is_recent_stop
  get_recent_stop_loss_symbols account exchange now cooldown ps =
      map (λ p. p.symbol) (filter (is_recent_stop account exchange now (minutes cooldown)) ps)

  pub get_recent_closed_symbols : String → String → ℕ → ℕ → List Position → List String
  unfolding in_market closed_since
  get_recent_closed_symbols account exchange now cooldown ps =
      map (λ p. p.symbol)
        (filter
          (λ p.
            in_market account exchange p
            && not (is_opened p.status)
            && closed_since now (minutes cooldown) p)
          ps)

  -- `group_by(symbol).having(count(id) >= min_stop_count)`
  unfoldable pub get_whipsaw_cooldown_symbols :
      String → String → ℕ → ℕ → ℕ → List Position → List String
  unfolding is_recent_stop
  get_whipsaw_cooldown_symbols account exchange now min_stop_count cooldown ps =
      let rows = filter (is_recent_stop account exchange now (minutes cooldown)) ps in
      map (λ p. p.symbol)
        (filter (λ p. leb min_stop_count (length (filter (λ q. str_eq q.symbol p.symbol) rows)))
          rows)

  -- The row with the key of `p` becomes `p`.
  abbrev pub put : Position → List Position → List Position
  put p [] = []
  put p (q ∷ qs) = (if q.id == p.id then p else q) ∷ put p qs

  unfoldable pub save : Position → Store → Store
  save p s = record s { positions = put p s.positions }

  unfoldable pub create_open_position :
      String
      → String
      → String
      → Decimal
      → Decimal
      → Decimal
      → ℕ
      → Option Decimal
      → Option Decimal
      → Option StrategyMode
      → PositionSide
      → Store
      → Position × Store
  create_open_position account exchange symbol quantity price notional now sl tp mode side s =
      let position : Position = record {
        id = s.next_position;
        account_name = account;
        exchange = exchange;
        symbol = symbol;
        side = side;
        status = opened;
        quantity = quantity;
        entry_price = price;
        current_price = price;
        notional_value = notional;
        unrealized_pnl = nought;
        realized_pnl = nought;
        stop_loss_price = sl;
        take_profit_price = tp;
        strategy_mode = mode;
        opened_at = now;
        closed_at = none;
        close_reason = none;
      } in
      (
        position,
        record s { positions = s.positions ++ position ∷ []; next_position = s.next_position + 1 },
      )

  pub zero_if_tiny : Decimal → Decimal
  zero_if_tiny value = if abs value <? n.lit 1 8 then nought else quantize value

  -- The gain of a position at a price.
  unfoldable pub raw_pnl : Position → Decimal → Decimal
  raw_pnl p price =
      if is_long p.side
      then (price ⊖ p.entry_price) ⊗ p.quantity
      else (p.entry_price ⊖ price) ⊗ p.quantity

  pub revalued : Position → Decimal → Decimal → Decimal
  revalued p price pnl =
      if same pnl nought then quantize p.notional_value else quantize (p.quantity ⊗ price)

  unfoldable pub update_mark_price : Position → Decimal → Position
  unfolding zero_if_tiny raw_pnl revalued
  update_mark_price p price =
      let current = quantize price in
      let unrealized = zero_if_tiny (raw_pnl p current) in
      record p {
        current_price = current;
        unrealized_pnl = unrealized;
        notional_value = revalued p current unrealized;
      }

  unfoldable pub update_stop_loss : Position → Decimal → Position
  update_stop_loss p price = record p { stop_loss_price = some (quantize price) }

  unfoldable pub close_position : Position → Decimal → ℕ → CloseReason → Position
  unfolding zero_if_tiny raw_pnl revalued
  close_position p price now reason =
      let exit_price = quantize price in
      let realized = zero_if_tiny (raw_pnl p exit_price) in
      record p {
        current_price = exit_price;
        realized_pnl = realized;
        unrealized_pnl = nought;
        notional_value = revalued p exit_price realized;
        status = closed;
        closed_at = some now;
        close_reason = some reason;
      }
