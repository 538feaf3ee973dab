-- ===== src/Queue/Failures.antt =====
-- services/trading_cycle_service/executor_queue.py: tasks that cannot be executed.
use crypto_mas.Repository.Accounts.{get_by_name}
use crypto_mas.Domain.{Store, StrategyMode}
use crypto_mas.Paper.Broker.{with_account, broker_mark}
use crypto_mas.Prelude.{false, ℕ, none, [], ◌∷◌, ◌≡◌, refl, ap}
use crypto_mas.Numbers.{Numerics}
use crypto_mas.Paper.Session.{new_broker, Call, raised}
use crypto_mas.Queue.{
  call_of, Tables, ExecutionTask, write_back, execute_task, execute_passes, OrderExecutorQueue,
  work_on, worker, BrokerFactory, unset, by_mode, constant,
}

module _ ⦃n : Numerics⦄ where
  mark_unknown :
      (mode : StrategyMode) (c : Call) (s : Store)
      → get_by_name c.account_name s.accounts ≡ none
      → broker_mark (new_broker mode false) none c s ≡ raised s
  unfolding broker_mark with_account new_broker
  mark_unknown mode c s h = rw (h, broker_mark, with_account) refl

  passes_unknown :
      (mode : StrategyMode) (task : ExecutionTask) (now : ℕ) (s : Store)
      → get_by_name task.account_name s.accounts ≡ none
      → execute_passes mode task now s ≡ raised s
  unfolding execute_passes
  passes_unknown mode task now s h = rw (mark_unknown mode (call_of task now) s h) refl

  -- A task whose account is not in the table changes no table, with whatever factory the queue has.
  execute_task_unknown :
      (factory : BrokerFactory) (now : ℕ) (task : ExecutionTask) (t : Tables)
      → get_by_name task.account_name t.store.accounts ≡ none
      → execute_task factory now task t ≡ t
  unfolding execute_task write_back
  execute_task_unknown unset now task t h = refl
  execute_task_unknown by_mode now task t h =
      ap (write_back task now t) (passes_unknown task.strategy_mode task now t.store h)
  execute_task_unknown (constant mode) now task t h =
      ap (write_back task now t) (passes_unknown mode task now t.store h)

  -- A worker drops the one task of its queue, if the account of that is not in the table.
  pub worker_drops :
      (factory : BrokerFactory) (clock : ℕ → ℕ) (task : ExecutionTask) (q : OrderExecutorQueue)
      → q.queue ≡ task ∷ []
      → get_by_name task.account_name q.tables.store.accounts ≡ none
      → ((worker factory clock q).queue ≡ []) × ((worker factory clock q).tables ≡ q.tables)
  unfolding worker work_on
  worker_drops factory clock task q e h =
      rw (worker, e) (refl, execute_task_unknown factory (clock q.taken) task q.tables h)
