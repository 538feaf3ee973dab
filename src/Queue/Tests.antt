-- ===== src/Queue/Tests.antt =====
-- Two tasks in the queue of a worker, one of an account that is not there.
use crypto_mas.Queue.Order.{
  QueueEvent, happen-in_order, tasks_of, turn, put_task, in_order, happen, turns,
}
use crypto_mas.Prelude.{ℕ, false, none, some, List, [], ◌∷◌, String, ◌≡◌, refl, length, ◌++◌}
use crypto_mas.Numbers.Fixed.{literal, fixed}
use crypto_mas.Domain.{swing}
use crypto_mas.Paper.Tests.{store, target}
use crypto_mas.Queue.{Tables, ExecutionTask, OrderExecutorQueue, by_mode, running}

abbrev task : String → ExecutionTask
task name = record {
  account_name = name;
  target = target;
  cycle_id = some 7;
  strategy_mode = swing;
}

abbrev tables : Tables
tables = record {
  store = store;
  cycles =
      record {
        id = 7;
        status = running;
        symbols_processed = 0;
        decisions_made = 0;
        trades_executed = 0;
        starting_equity = literal 0 0;
        ending_equity = literal 0 0;
        cycle_pnl = literal 0 0;
        finished_at = none;
      }
      ∷ [];
}

abbrev clock : ℕ → ℕ
clock k = 600_000_000

abbrev idle : OrderExecutorQueue
idle = record { sync_mode = false; queue = []; tables = tables; taken = 0 }

abbrev events : List QueueEvent
events = put_task (task "nobody") ∷ turn ∷ put_task (task "swing") ∷ []

happen-in_order_example :
    ((turns by_mode clock
        (length (happen by_mode clock events idle).queue)
        (happen by_mode clock events idle)).queue
      ≡ [])
    × ((turns by_mode clock
          (length (happen by_mode clock events idle).queue)
          (happen by_mode clock events idle)).tables
        ≡ in_order by_mode clock
            (idle.queue ++ tasks_of by_mode clock events)
            idle.taken
            idle.tables)
happen-in_order_example = happen-in_order by_mode clock events idle refl
