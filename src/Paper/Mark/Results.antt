-- ===== src/Paper/Mark/Results.antt =====
-- What a call of `update_mark_prices` that returns has done.
use crypto_mas.Prelude.{◌≡◌}
use crypto_mas.Numbers.{Numerics}
use crypto_mas.Domain.{PaperAccount, PaperExecutionReport, Store}
use crypto_mas.Repository.Positions.{list_open_positions}
use crypto_mas.Paper.Session.{Broker, Call, Pass}
use crypto_mas.Paper.Execute.{settle}
use crypto_mas.Paper.Execute.Results.{initial}
use crypto_mas.Paper.Loop.{Rounds}
use crypto_mas.Paper.Mark.Rounds.{Marked}

module _ ⦃n : Numerics⦄ where
  record Ran (b : Broker) (c : Call) (account : PaperAccount) (s : Store)
      (r : PaperExecutionReport × Store) : Type 0 where
    end : Pass
    rounds :
        Rounds (Marked b c) (list_open_positions c.account_name s.positions) (initial account s) end
    settled : r ≡ settle c account end
