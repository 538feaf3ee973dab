-- ===== src/Queue.antt =====
-- services/trading_cycle_service/executor_queue.py, `OrderExecutorQueue`, with the row of domain/models/
-- trading_cycle.py and `get_by_id` of domain/repositories/trading_cycle_repository.py. The columns of the row
-- that say where it comes from are left out.
pub mod Order
pub mod Failures
mod Tests
use crypto_mas.Prelude.{
  ℕ, suc, ◌+◌, Bool, true, false, not, ◌||◌, Option, none, some, List, [], ◌∷◌, ◌++◌, map, String,
  ◌==◌, if◌then◌else◌, length,
}
use crypto_mas.Numbers.{Numerics, ◌⊕◌, nought}
use crypto_mas.Domain.{
  StrategyMode, scalping, swing, Position, PaperAccount, PortfolioTarget, PaperExecutionReport,
  Store,
}
use crypto_mas.Repository.Positions.{list_open_positions}
use crypto_mas.Repository.Accounts.{get_by_name}
use crypto_mas.Paper.Session.{new_broker, Broker, Call, Outcome, ok, raised, ◌>>=◌}
use crypto_mas.Paper.Broker.{broker_execute, broker_close, broker_mark}

pub data CycleStatus : Type 0 where
  running completed failed : CycleStatus

-- A factory that was never set; one that takes the strategy's mode; and one that takes nothing, whose
-- brokers have the mode that it chooses.
pub data BrokerFactory : Type 0 where
  unset by_mode : BrokerFactory
  constant : StrategyMode → BrokerFactory

abbrev pub is_scalping : StrategyMode → Bool
is_scalping scalping = true
is_scalping _ = false

module _ ⦃n : Numerics⦄ where
  open n use {Decimal, Float, float_lit, float_sub, to_float}

  pub record TradingCycle : Type 0 where
    pub id : ℕ
    pub status : CycleStatus
    pub symbols_processed : ℕ
    pub decisions_made : ℕ
    pub trades_executed : ℕ
    pub starting_equity : Float
    pub ending_equity : Float
    pub cycle_pnl : Float
    pub finished_at : Option ℕ

  pub record ExecutionTask : Type 0 where
    pub account_name : String
    pub target : PortfolioTarget
    pub cycle_id : Option ℕ
    pub strategy_mode : StrategyMode

  pub record Tables : Type 0 where
    pub store : Store
    pub cycles : List TradingCycle

  -- `sum(p.notional_value for p in open_positions)`
  abbrev pub sum_notional : Decimal → List Position → Decimal
  sum_notional total [] = total
  sum_notional total (p ∷ ps) = sum_notional (total ⊕ p.notional_value) ps

  -- The report of a scalper that closes nothing: the account as it stands.
  standing_report : Call → PaperAccount → Store → PaperExecutionReport
  standing_report c account s =
      let equity =
        account.cash_balance
        ⊕ sum_notional nought (list_open_positions c.account_name s.positions) in
      record {
        account_name = c.account_name;
        exchange = c.exchange;
        starting_cash = to_float account.cash_balance;
        ending_cash = to_float account.cash_balance;
        starting_equity = to_float equity;
        ending_equity = to_float equity;
        executed = [];
        skipped = [];
        created_at = c.now;
      }

  abbrev pub has_reasons : List (String × String) → Bool
  has_reasons [] = false
  has_reasons (r ∷ rs) = true

  -- The closing pass, or the standing report; an account that is missing raises.
  pub close_pass :
      Broker
      → StrategyMode
      → Call
      → PortfolioTarget
      → Store
      → Outcome (PaperExecutionReport × Store)
  unfolding standing_report
  close_pass b mode c target s =
      if not (is_scalping mode) || has_reasons target.close_reasons
      then broker_close b none c target s
      else (elim (get_by_name c.account_name s.accounts) [
        | none ↦ raised s
        | some account ↦ ok (standing_report c account s, s)
      ])

  abbrev pub call_of : ExecutionTask → ℕ → Call
  call_of task now = record {
    account_name = task.account_name;
    exchange = task.target.exchange;
    timeframe = task.target.timeframe;
    cycle_id = task.cycle_id;
    now = now;
  }

  -- The three passes: marking, closing, opening. The result is the two reports that count.
  pub execute_passes :
      StrategyMode
      → ExecutionTask
      → ℕ
      → Store
      → Outcome ((PaperExecutionReport × PaperExecutionReport) × Store)
  unfolding close_pass
  execute_passes mode task now s =
      let b = new_broker mode false in
      let c = call_of task now in
      broker_mark b none c s >>= λ marked. close_pass b mode c task.target marked.1 >>= λ closing.
      broker_execute b none c task.target closing.1 >>= λ executed.
      ok ((closing.0, executed.0), executed.1)

  pub complete : PaperExecutionReport → PaperExecutionReport → ℕ → TradingCycle → TradingCycle
  complete closing executed now cycle = record cycle {
    status = completed;
    trades_executed = length closing.executed + length executed.executed;
    starting_equity = closing.starting_equity;
    ending_equity = executed.ending_equity;
    cycle_pnl = float_sub executed.ending_equity closing.starting_equity;
    finished_at = some now;
  }

  -- `if task.cycle_id`: a number of zero is none. The row of the number, if there is one, is completed.
  pub close_cycle :
      Option ℕ
      → PaperExecutionReport
      → PaperExecutionReport
      → ℕ
      → List TradingCycle
      → List TradingCycle
  unfolding complete
  close_cycle none closing executed now cycles = cycles
  close_cycle (some id) closing executed now cycles =
      if id == 0
      then cycles
      else map (λ cycle. if cycle.id == id then complete closing executed now cycle else cycle)
          cycles

  write_back :
      ExecutionTask
      → ℕ
      → Tables
      → Outcome ((PaperExecutionReport × PaperExecutionReport) × Store)
      → Tables
  unfolding close_cycle
  write_back task now t (raised s) = record t { store = s }
  write_back task now t (ok (reports, s)) = record {
    store = s;
    cycles = close_cycle task.cycle_id reports.0 reports.1 now t.cycles;
  }

  -- `_execute_task_sync`, and the body of the worker's loop, which logs an exception and goes on.
  pub execute_task : BrokerFactory → ℕ → ExecutionTask → Tables → Tables
  unfolding execute_passes write_back
  execute_task unset now task t = t
  execute_task by_mode now task t =
      write_back task now t (execute_passes task.strategy_mode task now t.store)
  execute_task (constant mode) now task t =
      write_back task now t (execute_passes mode task now t.store)

  -- The queue of a worker, the tables, and how many tasks it has taken. Task number k is executed at
  -- the time that the clock gives for k.
  pub record OrderExecutorQueue : Type 0 where
    pub sync_mode : Bool
    pub queue : List ExecutionTask
    pub tables : Tables
    pub taken : ℕ

  module _ (factory : BrokerFactory) (clock : ℕ → ℕ) where
    -- In the synchronous mode the task is executed at once; an exception then reaches the caller.
    unfoldable pub enqueue : ExecutionTask → OrderExecutorQueue → OrderExecutorQueue
    unfolding execute_task
    enqueue task q =
        if q.sync_mode
        then record q {
          tables = execute_task factory (clock q.taken) task q.tables;
          taken = suc q.taken;
        }
        else record q { queue = q.queue ++ task ∷ [] }

    -- One round of the worker; where the queue is empty it waits.
    pub work_on : List ExecutionTask → OrderExecutorQueue → OrderExecutorQueue
    unfolding execute_task
    work_on [] q = q
    work_on (task ∷ tasks) q = record q {
      queue = tasks;
      tables = execute_task factory (clock q.taken) task q.tables;
      taken = suc q.taken;
    }

    pub worker : OrderExecutorQueue → OrderExecutorQueue
    unfolding work_on
    worker q = work_on q.queue q
