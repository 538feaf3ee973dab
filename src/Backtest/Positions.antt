-- ===== src/Backtest/Positions.antt =====
-- services/backtesting/memory_cache.py, `InMemoryPositionRepository`. A position is shared with its callers there;
-- here an update gives the new row, and `keep` puts it where the cache holds it.
pub mod Cooldowns
pub mod Stops
use crypto_mas.Prelude.{
  ℕ, suc, ◌+◌, Bool, true, false, Option, none, some, List, [], ◌∷◌, ◌++◌, map, String, leb, ltb,
  str_eq, if◌then◌else◌, filter,
}
use crypto_mas.Prelude.Dict.{assign, find}
use crypto_mas.Numbers.{Numerics, ◌⊖◌, ◌⊗◌, ◌<?◌, nought, abs}
use crypto_mas.Domain.{
  PositionSide, is_long, opened, closed, StrategyMode, CloseReason, is_stop_loss, Position,
}
use crypto_mas.Repository.Positions.{minutes, raw_pnl}
use crypto_mas.Backtest.Book.{pop}
use crypto_mas.Cycle.Views.{PositionView}

abbrev pub keys {ℓ} : {A : Type ℓ} → List (String × A) → List String
keys d = map (λ e. e.0) d

abbrev pub count_of : Option ℕ → ℕ
count_of none = 0
count_of (some k) = k

-- `counts[sym] = counts.get(sym, 0) + 1`, for a stop within the span.
pub tally_one : ℕ → ℕ → List (String × ℕ) → String × ℕ → List (String × ℕ)
tally_one now span counts (symbol, t) =
    if leb now (t + span)
    then assign symbol (suc (count_of (find symbol counts))) counts
    else counts

pub tally : ℕ → ℕ → List (String × ℕ) → List (String × ℕ) → List (String × ℕ)
unfolding tally_one
tally now span counts [] = counts
tally now span counts (stop ∷ history) = tally now span (tally_one now span counts stop) history

module _ ⦃n : Numerics⦄ where
  open n use {Decimal}

  -- The symbols are keys; a cooldown is the time at which it ends.
  pub record MemoryPositions : Type 0 where
    pub open_rows : List (String × Position)
    pub sl_cooldowns : List (String × ℕ)
    pub global_cooldowns : List (String × ℕ)
    pub sl_history : List (String × ℕ)

  unfoldable pub empty_memory : MemoryPositions
  empty_memory = record {
    open_rows = [];
    sl_cooldowns = [];
    global_cooldowns = [];
    sl_history = [];
  }

  -- `{sym for sym, exp in cooldowns.items() if now < exp}`
  pub cooling : ℕ → List (String × ℕ) → List String
  cooling now cooldowns = keys (filter (λ e. ltb now e.1) cooldowns)

  pub memory_open_symbols : MemoryPositions → List String
  memory_open_symbols m = keys m.open_rows

  pub memory_list_open : MemoryPositions → List Position
  memory_list_open m = map (λ e. e.1) m.open_rows

  -- The symbol alone is the key.
  pub memory_get_open : String → MemoryPositions → Option Position
  memory_get_open symbol m = find symbol m.open_rows

  -- The argument `cooldown_minutes` is not used.
  unfoldable pub memory_recent_stop_loss : ℕ → ℕ → MemoryPositions → List String
  unfolding cooling
  memory_recent_stop_loss now cooldown m = cooling now m.sl_cooldowns

  pub memory_recent_closed : ℕ → ℕ → MemoryPositions → List String
  unfolding cooling
  memory_recent_closed now cooldown m = cooling now m.global_cooldowns

  pub memory_has_recent_stop_loss : String → ℕ → ℕ → MemoryPositions → Bool
  memory_has_recent_stop_loss symbol now cooldown m = elim (find symbol m.sl_cooldowns) [
    | none ↦ false
    | some expiry ↦ ltb now expiry
  ]

  unfoldable pub memory_whipsaw : ℕ → ℕ → ℕ → MemoryPositions → List String
  unfolding tally
  memory_whipsaw now min_stop_count cooldown m =
      keys (filter (λ e. leb min_stop_count e.1) (tally now (minutes cooldown) [] m.sl_history))

  pub view_of_memory : ℕ → MemoryPositions → PositionView
  unfolding memory_recent_stop_loss memory_whipsaw memory_open_symbols
  view_of_memory now m = record {
    open_symbols = memory_open_symbols m;
    recent_stop_loss = λ cooldown. memory_recent_stop_loss now cooldown m;
    whipsaw = λ stops cooldown. memory_whipsaw now stops cooldown m;
  }

  -- The object has no key: the database never saw it.
  pub memory_create :
      String
      → String
      → String
      → Decimal
      → Decimal
      → Decimal
      → ℕ
      → Option Decimal
      → Option Decimal
      → Option StrategyMode
      → PositionSide
      → MemoryPositions
      → Position × MemoryPositions
  memory_create account exchange symbol quantity price notional now sl tp mode side m =
      let position : Position = record {
        id = 0;
        account_name = account;
        exchange = exchange;
        symbol = symbol;
        side = side;
        status = opened;
        quantity = quantity;
        entry_price = price;
        current_price = price;
        notional_value = notional;
        unrealized_pnl = nought;
        realized_pnl = nought;
        stop_loss_price = sl;
        take_profit_price = tp;
        strategy_mode = mode;
        opened_at = now;
        closed_at = none;
        close_reason = none;
      } in
      (position, record m { open_rows = assign symbol position m.open_rows })

  pub unless_tiny : Decimal → Decimal
  unless_tiny raw = if abs raw <? n.lit 1 8 then nought else raw

  pub keep : Position → MemoryPositions → MemoryPositions
  keep p m = record m { open_rows = assign p.symbol p m.open_rows }

  pub memory_mark_price : Position → Decimal → Position
  unfolding unless_tiny raw_pnl
  memory_mark_price p price = record p {
    unrealized_pnl = unless_tiny (raw_pnl p price);
    current_price = price;
    notional_value = p.quantity ⊗ price;
  }

  pub memory_stop_loss : Position → Decimal → Position
  memory_stop_loss p price = record p { stop_loss_price = some price }

  unfoldable pub memory_close :
      Position → Decimal → ℕ → CloseReason → MemoryPositions → Position × MemoryPositions
  unfolding unless_tiny raw_pnl
  memory_close p price now reason m =
      let stopped = is_stop_loss (some reason) in
      (
        record p {
          realized_pnl = unless_tiny (raw_pnl p price);
          unrealized_pnl = nought;
          current_price = price;
          status = closed;
          closed_at = some now;
          close_reason = some reason;
        },
        record {
          open_rows = pop p.symbol m.open_rows;
          sl_cooldowns =
              if stopped then assign p.symbol (now + minutes 30) m.sl_cooldowns else m.sl_cooldowns;
          global_cooldowns = assign p.symbol (now + minutes 60) m.global_cooldowns;
          sl_history = if stopped then m.sl_history ++ (p.symbol, now) ∷ [] else m.sl_history;
        },
      )
