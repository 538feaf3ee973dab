-- ===== src/Paper/Broker.antt =====
-- services/paper_trading/paper_broker.py: the three calls of `PaperBrokerService`, which look the account up.
use crypto_mas.Prelude.{Option, none, some, if◌then◌else◌}
use crypto_mas.Numbers.{Numerics}
use crypto_mas.Domain.{PaperAccount, PortfolioTarget, PaperExecutionReport, Store}
use crypto_mas.Repository.Accounts.{get_by_name}
use crypto_mas.Paper.Session.{Broker, Call, Outcome, raised}
use crypto_mas.Paper.Execute.{execute_target_portfolio}
use crypto_mas.Paper.Close.{close_positions_not_in_target}
use crypto_mas.Paper.Mark.{update_mark_prices}

module _ ⦃n : Numerics⦄ where
  -- The account of the call, and the exception "Paper account not found". A backtest sets the
  -- attribute `_bt_account`, which is then used instead of the table.
  unfoldable pub with_account :
      {A : Type 0}
      → Broker
      → Option PaperAccount
      → Call
      → Store
      → (PaperAccount → Outcome A)
      → Outcome A
  with_account b bt_account c s f =
      elim (if b.is_backtest then bt_account else get_by_name c.account_name s.accounts) [
        | none ↦ raised s
        | some account ↦ f account
      ]

  module _ (b : Broker) (bt_account : Option PaperAccount) (c : Call) where
    unfoldable pub broker_execute : PortfolioTarget → Store → Outcome (PaperExecutionReport × Store)
    unfolding with_account
    broker_execute target s =
        with_account b bt_account c s (λ a. execute_target_portfolio b c a target s)

    unfoldable pub broker_close : PortfolioTarget → Store → Outcome (PaperExecutionReport × Store)
    unfolding with_account
    broker_close target s =
        with_account b bt_account c s (λ a. close_positions_not_in_target b c a target s)

    unfoldable pub broker_mark : Store → Outcome (PaperExecutionReport × Store)
    unfolding with_account
    broker_mark s = with_account b bt_account c s (λ a. update_mark_prices b c a s)
