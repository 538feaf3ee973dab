-- ===== src/Paper/Tests/Positions.antt =====
-- Two positions that prices have moved: marked to market, and closed against a target.
use crypto_mas.Paper.Mark.Returns.{update_mark_prices-IsOk}
use crypto_mas.Paper.Close.Returns.{close_positions_not_in_target-IsOk, HasEntry}
use crypto_mas.Paper.Close.Results.{close_positions_not_in_target-Closed}
use crypto_mas.Paper.Close.Rounds.{Closed}
use crypto_mas.Paper.Calculator.Bounds.{slippage_adverse, pct_levels-ahead, ahead}
use crypto_mas.Paper.Mark.Stops.{stop_ratchet, marks, Ratchets}
use crypto_mas.Paper.Valuation.{open_positions_value}
use crypto_mas.Repository.Accounts.{set_balances, get_by_name}
use crypto_mas.Paper.Close.{is_kept, close_positions_not_in_target}
use crypto_mas.Paper.Mark.{update_mark_prices}
use crypto_mas.Repository.Positions.Listing.{is_listed, KeysUnique}
use crypto_mas.Paper.Fill.{skip}
use crypto_mas.Repository.Records.{get_latest}
use crypto_mas.Paper.Calculator.{
  pct_levels, calculate_pnl, calculate_exit_price, friction, calculate_execution_price, new,
  extract_close_price,
}
use crypto_mas.Repository.Positions.{list_open_positions}
use crypto_mas.Prelude.{
  ◌⊎◌, arith, ℕ, ◌≡◌, refl, true, false, none, some, List, [], ◌∷◌, length, ◌+◌, All,
}
use crypto_mas.Prelude.Int.{ℤ}
use crypto_mas.Numbers.Fixed.{fixed, fixed-IsOrdered, literal}
use crypto_mas.Domain.{long, short, Position, PaperExecutionReport, Store}
use crypto_mas.Repository.Positions.Queries.{row}
use crypto_mas.Paper.Session.{IsOk, for_each, new_broker, Outcome, ok}
use crypto_mas.Paper.Tests.{target, btc, account, moved, call, end_of, broker}

keys_unique : KeysUnique moved.positions
keys_unique = ((ground arith, tt), (tt, tt))

abbrev marked_result : Outcome (PaperExecutionReport × Store)
marked_result = update_mark_prices broker call account moved

abbrev marked_after : PaperExecutionReport × Store
marked_after = end_of moved marked_result

abbrev closed_result : Outcome (PaperExecutionReport × Store)
closed_result = close_positions_not_in_target broker call account target moved

abbrev closed_after : PaperExecutionReport × Store
closed_after = end_of moved closed_result

closed_ok : closed_result ≡ ok closed_after
unfolding skip close_positions_not_in_target get_by_name update_mark_prices set_balances
    list_open_positions open_positions_value friction is_kept calculate_exit_price calculate_pnl
    for_each new_broker extract_close_price get_latest new
closed_ok = refl

close_positions_not_in_target-Closed_example :
    let ps = list_open_positions "swing" moved.positions in
    All
      (λ p.
        (r : Position) × (row p.id closed_after.1.positions ≡ some r)
        × Closed broker call target moved.snapshots p r)
      ps
    × ((id : ℕ)
        → (is_listed id ps ≡ true) ⊎ (row id closed_after.1.positions ≡ row id moved.positions))
    × (length closed_after.0.executed + length closed_after.0.skipped ≡ length ps)
close_positions_not_in_target-Closed_example =
    close_positions_not_in_target-Closed broker call account target moved keys_unique closed_ok

abbrev ticks : List (ℤ × ℤ)
ticks = (literal 110 0, literal 2 2) ∷ (literal 105 0, literal 2 2) ∷ []

stop_ratchet_example :
    Ratchets fixed-IsOrdered btc (literal 97 0) (marks broker.calculator btc ticks)
stop_ratchet_example = stop_ratchet fixed-IsOrdered broker.calculator ticks btc (literal 97 0) refl

bought :
    calculate_execution_price broker.calculator (literal 100 0) long none false
    ≡ some (literal 10002 2)
unfolding calculate_execution_price new_broker new
bought = refl

left :
    calculate_exit_price broker.calculator (literal 100 0) long none false ≡ some (literal 9998 2)
unfolding calculate_exit_price new_broker new
left = refl

slippage_adverse_example :
    (ahead long (fixed.quantize (literal 100 0)) (literal 10002 2) ≡ true)
    × (ahead long (literal 9998 2) (fixed.quantize (literal 100 0)) ≡ true)
unfolding new_broker new
slippage_adverse_example =
    slippage_adverse fixed-IsOrdered broker.calculator (literal 100 0) long none false
      (literal 10002 2) (literal 9998 2) refl refl bought left

pct_levels-ahead_example :
    let (stop, goal) = pct_levels broker.calculator (literal 100 0) short in
    (ahead short stop (fixed.quantize (literal 100 0)) ≡ true)
    × (ahead short (fixed.quantize (literal 100 0)) goal ≡ true)
unfolding new_broker new
pct_levels-ahead_example =
    pct_levels-ahead fixed-IsOrdered broker.calculator (literal 100 0) short refl refl refl

entries : All HasEntry (list_open_positions "swing" moved.positions)
unfolding list_open_positions
entries = (refl, (refl, tt))

close_positions_not_in_target-IsOk_example :
    IsOk (close_positions_not_in_target broker call account target moved)
close_positions_not_in_target-IsOk_example =
    close_positions_not_in_target-IsOk fixed-IsOrdered broker call account target moved entries

update_mark_prices-IsOk_example : IsOk (update_mark_prices broker call account moved)
update_mark_prices-IsOk_example =
    update_mark_prices-IsOk fixed-IsOrdered broker call account moved entries
