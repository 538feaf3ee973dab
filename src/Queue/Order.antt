-- ===== src/Queue/Order.antt =====
-- services/trading_cycle_service/executor_queue.py: producers and the worker in any order.
use mathlib.Core.List.{append-nil, append_assoc}
use crypto_mas.Prelude.{
  subst, ℕ, zero, suc, false, List, [], ◌∷◌, ◌++◌, length, ◌≡◌, refl, sym, ap, ◌∙◌,
}
use crypto_mas.Numbers.{Numerics}
use crypto_mas.Queue.{
  execute_task, enqueue, work_on, Tables, ExecutionTask, OrderExecutorQueue, worker, BrokerFactory,
}

module _ ⦃n : Numerics⦄ where
  -- What happens to a queue: a task is put, or the worker takes its turn.
  pub data QueueEvent : Type 0 where
    put_task : ExecutionTask → QueueEvent
    turn : QueueEvent

  module _ (factory : BrokerFactory) (clock : ℕ → ℕ) where
    abbrev pub happen : List QueueEvent → OrderExecutorQueue → OrderExecutorQueue
    happen [] q = q
    happen (put_task task ∷ es) q = happen es (enqueue factory clock task q)
    happen (turn ∷ es) q = happen es (worker factory clock q)

    abbrev pub tasks_of : List QueueEvent → List ExecutionTask
    tasks_of [] = []
    tasks_of (put_task task ∷ es) = task ∷ tasks_of es
    tasks_of (turn ∷ es) = tasks_of es

    -- As many turns of the worker.
    abbrev pub turns : ℕ → OrderExecutorQueue → OrderExecutorQueue
    turns zero q = q
    turns (suc k) q = turns k (worker factory clock q)

    -- The tasks one after the other, with no queue.
    abbrev pub in_order : List ExecutionTask → ℕ → Tables → Tables
    in_order [] k t = t
    in_order (task ∷ tasks) k t = in_order tasks (suc k) (execute_task factory (clock k) task t)

    worker_takes :
        (q : OrderExecutorQueue) (task : ExecutionTask) (tasks : List ExecutionTask)
        → q.queue ≡ task ∷ tasks
        → worker factory clock q ≡ record q {
          queue = tasks;
          tables = execute_task factory (clock q.taken) task q.tables;
          taken = suc q.taken;
        }
    unfolding worker work_on
    worker_takes q task tasks h = ap (λ ts. work_on factory clock ts q) h

    worker_waits : (q : OrderExecutorQueue) → q.queue ≡ [] → worker factory clock q ≡ q
    unfolding worker work_on
    worker_waits q h = ap (λ ts. work_on factory clock ts q) h

    -- As many turns as there are tasks empty the queue, in its order.
    turns_all :
        (tasks : List ExecutionTask) (q : OrderExecutorQueue)
        → q.queue ≡ tasks
        → ((turns (length tasks) q).queue ≡ [])
          × ((turns (length tasks) q).tables ≡ in_order tasks q.taken q.tables)
    turns_all [] q h = (h, refl)
    turns_all (task ∷ tasks) q h =
        let rest =
          in_order tasks (suc q.taken) (execute_task factory (clock q.taken) task q.tables) in
        subst
          (λ r. ((turns (length tasks) r).queue ≡ []) × ((turns (length tasks) r).tables ≡ rest))
          (sym (worker_takes q task tasks h))
          (turns_all tasks
            (record q {
              queue = tasks;
              tables = execute_task factory (clock q.taken) task q.tables;
              taken = suc q.taken;
            })
            refl)

    enqueue_waits :
        (task : ExecutionTask) (q : OrderExecutorQueue)
        → q.sync_mode ≡ false
        → enqueue factory clock task q ≡ record q { queue = q.queue ++ task ∷ [] }
    unfolding enqueue
    enqueue_waits task q h = rw h refl

    -- What the tasks that wait and will come lead to; a put and a turn do not change it.
    abbrev leads_to : List QueueEvent → OrderExecutorQueue → Tables
    leads_to es q = in_order (q.queue ++ tasks_of es) q.taken q.tables

    turn_leads :
        (es : List QueueEvent) (q : OrderExecutorQueue) (tasks : List ExecutionTask)
        → q.queue ≡ tasks
        → leads_to es (worker factory clock q) ≡ leads_to (turn ∷ es) q
    turn_leads es q [] h = ap (leads_to es) (worker_waits q h)
    turn_leads es q (task ∷ tasks) h =
        ap (leads_to es) (worker_takes q task tasks h)
        ∙ sym (ap (λ ts. in_order (ts ++ tasks_of es) q.taken q.tables) h)

    worker-sync_mode :
        (q : OrderExecutorQueue) (tasks : List ExecutionTask)
        → q.queue ≡ tasks
        → (worker factory clock q).sync_mode ≡ q.sync_mode
    worker-sync_mode q [] h = ap (λ r. r.sync_mode) (worker_waits q h)
    worker-sync_mode q (task ∷ tasks) h = ap (λ r. r.sync_mode) (worker_takes q task tasks h)

    happen-leads :
        (es : List QueueEvent) (q : OrderExecutorQueue)
        → q.sync_mode ≡ false
        → leads_to [] (happen es q) ≡ leads_to es q
    happen-leads [] q h = refl
    happen-leads (put_task task ∷ es) q h =
        let waits = enqueue_waits task q h in
        happen-leads es (enqueue factory clock task q) (ap (λ r. r.sync_mode) waits ∙ h)
        ∙ ap (leads_to es) waits
        ∙ ap (λ ts. in_order ts q.taken q.tables) (append_assoc q.queue (task ∷ []) (tasks_of es))
    happen-leads (turn ∷ es) q h =
        happen-leads es (worker factory clock q) (worker-sync_mode q q.queue refl ∙ h)
        ∙ turn_leads es q q.queue refl

    -- Whatever the order in which tasks are put and the worker takes its turns: as many turns more as
    -- tasks then wait empty the queue, and the tables are as if all tasks had been executed one after
    -- the other in the order in which they were put, those whose execution raises included.
    pub happen-in_order :
        (es : List QueueEvent) (q : OrderExecutorQueue)
        → q.sync_mode ≡ false
        → let r = happen es q in
          ((turns (length r.queue) r).queue ≡ [])
          × ((turns (length r.queue) r).tables ≡ in_order (q.queue ++ tasks_of es) q.taken q.tables)
    happen-in_order es q h =
        let r = happen es q in
        let all = turns_all r.queue r refl in
        (
          all.0,
          all.1
              ∙ ap (λ ts. in_order ts r.taken r.tables) (sym (append-nil r.queue))
              ∙ happen-leads es q h,
        )
