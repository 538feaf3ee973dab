-- ===== src/Paper/Tests/Orders.antt =====
-- A target of three positions, executed by an account that holds none.
use crypto_mas.Paper.Execute.Returns.{execute_target_portfolio-IsOk}
use crypto_mas.Repository.Accounts.{set_balances, get_by_name}
use crypto_mas.Paper.Fill.{skip, fill}
use crypto_mas.Repository.Records.{get_latest}
use crypto_mas.Paper.Calculator.{
  calculate_quantity, calculate_execution_price, new, calculate_total_cost,
  calculate_target_notional, is_thin_liquidity_or_excessive_spread, extract_close_price,
}
use crypto_mas.Repository.Positions.{
  get_whipsaw_cooldown_symbols, get_recent_stop_loss_symbols, get_open_position,
}
use crypto_mas.Prelude.{
  arith, ◌≡◌, refl, true, Option, none, some, List, [], ◌++◌, length, ◌+◌, All,
}
use crypto_mas.Numbers.{nought, ◌≤?◌}
use crypto_mas.Numbers.Fixed.{fixed, fixed-IsOrdered}
use crypto_mas.Domain.{Position, PaperAccount, PaperExecutionReport, Store}
use crypto_mas.Repository.Positions.Queries.{OneOpen}
use crypto_mas.Paper.Session.{IsOk, for_each, new_broker, Outcome, ok}
use crypto_mas.Paper.Execute.{execute_target_portfolio, limits}
use crypto_mas.Paper.Execute.Book.{IsNew}
use crypto_mas.Paper.Execute.Results.{execute_adds_positions, execute-OneOpen, execute_no_overdraft}
use crypto_mas.Paper.Tests.{target, store, call, end_of, account, broker}

abbrev result : Outcome (PaperExecutionReport × Store)
result = execute_target_portfolio broker call account target store

abbrev after : PaperExecutionReport × Store
after = end_of store result

result_ok : result ≡ ok after
unfolding execute_target_portfolio get_open_position get_recent_stop_loss_symbols
    get_whipsaw_cooldown_symbols extract_close_price get_latest
    is_thin_liquidity_or_excessive_spread calculate_target_notional calculate_total_cost new_broker
    new calculate_execution_price calculate_quantity for_each fill
result_ok = refl

execute-OneOpen_example : OneOpen after.1.positions
execute-OneOpen_example =
    execute-OneOpen broker call account target store result_ok
      (λ account exchange symbol. ground arith)

execute_adds_positions_example :
    (rows : List Position) × (after.1.positions ≡ [] ++ rows)
    × All (IsNew broker call (limits call account store)) rows
    × (length after.0.executed ≡ length rows)
    × (length after.1.trades ≡ 0 + length rows)
    × (length after.1.orders ≡ 0 + length rows)
execute_adds_positions_example = execute_adds_positions broker call account target store result_ok

-- Two of the three targets are filled; the other finds its symbol open.
filled_orders : length after.1.trades ≡ 2
unfolding execute_target_portfolio get_open_position get_recent_stop_loss_symbols
    get_whipsaw_cooldown_symbols extract_close_price get_latest
    is_thin_liquidity_or_excessive_spread calculate_target_notional calculate_total_cost new_broker
    new calculate_execution_price calculate_quantity for_each fill skip
filled_orders = refl

abbrev account_of : Option PaperAccount → PaperAccount
account_of none = account
account_of (some a) = a

abbrev account_after : PaperAccount
account_after = account_of (get_by_name "swing" after.1.accounts)

found : get_by_name "swing" after.1.accounts ≡ some account_after
unfolding execute_target_portfolio get_open_position get_recent_stop_loss_symbols
    get_whipsaw_cooldown_symbols extract_close_price get_latest
    is_thin_liquidity_or_excessive_spread calculate_target_notional calculate_total_cost new_broker
    new calculate_execution_price calculate_quantity for_each fill skip get_by_name set_balances
found = refl

execute_no_overdraft_example : nought ≤? account_after.cash_balance ≡ true
execute_no_overdraft_example =
    execute_no_overdraft fixed-IsOrdered broker call account target store account_after result_ok
      refl found

execute_target_portfolio-IsOk_example : IsOk result
unfolding extract_close_price get_latest calculate_execution_price new_broker new
execute_target_portfolio-IsOk_example =
    execute_target_portfolio-IsOk fixed-IsOrdered broker call account target store
      (refl, (refl, (refl, tt)))
