-- ===== src/Tests.antt =====
-- Concrete runs of the parts beside the paper broker, on the numbers of `Numbers.Fixed`.
use crypto_mas.Repository.Positions.Queries.{row}
use crypto_mas.Risk.Engine.Decisions.{assess_cases, WithinLimits, try_reduce_positions}
use crypto_mas.MarketData.Integrity.Validity.{validate_iff, validate_weekly}
use crypto_mas.MarketData.Integrity.Series.{IsSeries}
use crypto_mas.MarketData.Integrity.Quality.{IsGood}
use crypto_mas.Repository.Positions.{get_open_position, zero_if_tiny}
use crypto_mas.Risk.Limits.{RiskDecisionStatus, reduced, approved, swing_limits}
use crypto_mas.Oms.Orders.{sell_after_buy}
use crypto_mas.MarketData.Schemas.{one_week, one_minute, OhlcvCandle}
use crypto_mas.MarketData.Integrity.{timeframe_to_delta, validate}
use crypto_mas.Risk.Engine.{try_reduce, assess}
use crypto_mas.Folds.{add_weeks, generate_weekly_rolling_folds, generate_rolling_folds, Fold}
use crypto_mas.Folds.Results.{
  generate_weekly_rolling_folds_endless, generate_weekly_rolling_folds-Rolling,
  generate_rolling_folds-Rolling, Rolling, AddsMonths,
}
use crypto_mas.CircuitBreaker.Traces.{calls_outage, after-Sound, Sound}
use crypto_mas.CircuitBreaker.{
  succeeded, blocked, calls, new_circuit, checked, after, lost, failed, Circuit, guard, Attempt,
  Event,
}
use crypto_mas.Oms.{OrderStatus, Order, submit_order, PaperOms}
use crypto_mas.Prelude.{
  ℕ, ◌≤◌, ◌≡◌, ◌↔◌, ◌⊎◌, refl, inl, Bool, true, false, none, some, List, [], ◌∷◌, ◌++◌, map, String,
  take, ◌+◌, ◌*◌, All, arith,
}
use crypto_mas.Numbers.{◌⊖◌, ◌⊗◌}
use crypto_mas.Numbers.Fixed.{fixed, fixed-IsOrdered, literal}
use crypto_mas.Domain.{
  TradeSide, long, short, TargetPosition, PortfolioTarget, buy, sell, closed, Position,
  PositionSide,
}

abbrev candle : ℕ → OhlcvCandle
candle time = record {
  exchange = "binance";
  symbol = "BTCUSDT";
  open_time = time;
  close_time = time + 59_999_999;
  opening = literal 100 0;
  high = literal 110 0;
  low = literal 90 0;
  close = literal 105 0;
  volume = literal 7 0;
  quote_volume = none;
}

abbrev series : List OhlcvCandle
series = candle 60_000_000 ∷ candle 120_000_000 ∷ []

validate_iff_example :
    ((validate series one_minute).is_valid ≡ true)
    ↔ (IsSeries (timeframe_to_delta one_minute) series × All IsGood series)
validate_iff_example = validate_iff fixed-IsOrdered series one_minute

validate_weekly_example :
    (validate (candle 0 ∷ candle 604_800_000_000 ∷ []) one_week).is_valid ≡ false
validate_weekly_example =
    validate_weekly fixed-IsOrdered (candle 0) (candle 604_800_000_000) [] one_week (inl refl)

abbrev wanted : String → PositionSide → TargetPosition
wanted symbol side = record {
  symbol = symbol;
  side = side;
  target_weight = literal 50 2;
  confidence = literal 1 0;
  final_score = literal 1 0;
  sl_mult_override = none;
  tp_mult_override = none;
}

abbrev heavy : PortfolioTarget
heavy = record {
  exchange = "binance";
  timeframe = "1h";
  target_positions = wanted "BTCUSDT" long ∷ wanted "ETHUSDT" short ∷ [];
  cash_weight = literal 0 0;
  gross_exposure = literal 1 0;
  created_at = 0;
  close_reasons = [];
}

assess_cases_example :
    let a = assess swing_limits heavy in
    ((a.status ≡ approved) × (a.approved_target ≡ some heavy) × WithinLimits swing_limits heavy)
    ⊎ (((a.status ≡ reduced)
          × (a.approved_target ≡ some (try_reduce swing_limits heavy))
          × ¬ WithinLimits swing_limits heavy
          × WithinLimits swing_limits (try_reduce swing_limits heavy))
        ⊎ ((a.status ≡ RiskDecisionStatus.rejected)
            × (a.approved_target ≡ none)
            × ¬ WithinLimits swing_limits heavy
            × ¬ WithinLimits swing_limits (try_reduce swing_limits heavy)))
assess_cases_example = assess_cases swing_limits heavy

is_reduced : (assess swing_limits heavy).status ≡ reduced
unfolding assess
is_reduced = refl

try_reduce_positions_example :
    (map (λ p. p.symbol) (try_reduce swing_limits heavy).target_positions
      ≡ map (λ p. p.symbol) (take 10 heavy.target_positions))
    × All
        (λ p. (p.side ≡ long) × (p.sl_mult_override ≡ none) × (p.tp_mult_override ≡ none))
        (try_reduce swing_limits heavy).target_positions
try_reduce_positions_example = try_reduce_positions swing_limits heavy

abbrev events : List Event
events = lost 5 ∷ checked 4 ∷ lost 3 ∷ lost 2 ∷ lost 1 ∷ lost 0 ∷ succeeded ∷ []

after-Sound_example : Sound 5 (after events)
after-Sound_example = after-Sound events

abbrev attempt : ℕ → Attempt Bool
attempt now = record { start = now; finish = now + 1; answer = failed }

abbrev four : List (Attempt Bool)
four = attempt 1 ∷ attempt 2 ∷ attempt 3 ∷ attempt 4 ∷ []

abbrev outage : Circuit
outage = calls (four ++ attempt 5 ∷ []) new_circuit

-- The fifth call fails at 6; calls until a minute later are blocked.
calls_outage_example :
    (outage.tripped ≡ true)
    × (calls (attempt 7 ∷ attempt 60_000_006 ∷ []) outage ≡ outage)
    × All (λ a. (guard a outage).0 ≡ blocked) (attempt 7 ∷ attempt 60_000_006 ∷ [])
    × ((guard (attempt 60_000_007) (calls (attempt 7 ∷ attempt 60_000_006 ∷ []) outage)).0 ≡ failed)
    × ((guard (attempt 60_000_007) (calls (attempt 7 ∷ attempt 60_000_006 ∷ []) outage)).1.tripped
        ≡ false)
    × ((guard
          (attempt 60_000_007)
          (calls (attempt 7 ∷ attempt 60_000_006 ∷ []) outage)).1.failure_count
        ≤ 1)
calls_outage_example =
    calls_outage four (attempt 5) (attempt 7 ∷ attempt 60_000_006 ∷ []) (attempt 60_000_007) refl
      (refl, (refl, (refl, (refl, tt)))) refl (ground arith, (ground arith, tt)) (ground arith)

abbrev add_thirty : ℕ → ℕ → ℕ
add_thirty months date = date + months * 30

add_thirty-AddsMonths : AddsMonths add_thirty
add_thirty-AddsMonths = record {
  grows = λ months date. omega arith;
  forward = λ months date h. omega (arith, h);
}

generate_rolling_folds-Rolling_example :
    (fs : List Fold) × (generate_rolling_folds add_thirty 402 0 400 6 2 ≡ some fs)
    × Rolling (add_thirty 6) (add_thirty 2) (add_thirty 2) 400 0 1 fs
generate_rolling_folds-Rolling_example =
    generate_rolling_folds-Rolling add_thirty add_thirty-AddsMonths 0 400 6 2 (ground arith)

generate_weekly_rolling_folds-Rolling_example :
    (fs : List Fold) × (generate_weekly_rolling_folds 8_640_000_000_002 0 8_640_000_000_000 4 1 1
      ≡ some fs)
    × Rolling (add_weeks 4) (add_weeks 1) (add_weeks 1) 8_640_000_000_000 0 1 fs
generate_weekly_rolling_folds-Rolling_example =
    generate_weekly_rolling_folds-Rolling 0 8_640_000_000_000 4 1 1 (ground arith)

generate_weekly_rolling_folds_endless_example :
    generate_weekly_rolling_folds 1000 0 8_640_000_000_000 4 1 0 ≡ none
generate_weekly_rolling_folds_endless_example =
    generate_weekly_rolling_folds_endless 0 8_640_000_000_000 4 1 1000 (ground arith)

abbrev order : String → TradeSide → ℕ → ℕ → Order
order id side quantity price = record {
  order_id = id;
  account_name = "swing";
  exchange = "binance";
  symbol = "BTCUSDT";
  side = side;
  quantity = literal quantity 0;
  price = literal price 0;
  created_at = 7;
  strategy_mode = none;
}

abbrev empty : PaperOms
empty = record {
  orders = [];
  results = [];
  store = record {
    accounts = [];
    positions = [];
    next_position = 1;
    trades = [];
    next_trade = 1;
    orders = [];
    next_order = 1;
    logs = [];
    snapshots = [];
  };
}

sell_after_buy_example :
    let out = submit_order (order "b" sell 1 130) (submit_order (order "a" buy 2 100) empty).1 in
    (out.0.status ≡ OrderStatus.filled)
    × (out.0.filled_quantity ≡ literal 2 0)
    × (out.0.filled_price ≡ literal 130 0)
    × (q : Position) × (out.1.store.positions ≡ [] ++ q ∷ [])
    × (q.status ≡ closed)
    × (q.realized_pnl
        ≡ zero_if_tiny ((fixed.quantize (literal 130 0) ⊖ literal 100 0) ⊗ literal 2 0))
unfolding get_open_position row
sell_after_buy_example =
    sell_after_buy empty (order "a" buy 2 100) (order "b" sell 1 130) refl refl refl refl refl refl
      refl
