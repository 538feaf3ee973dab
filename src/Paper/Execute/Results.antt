-- ===== src/Paper/Execute/Results.antt =====
-- What a call of `execute_target_portfolio` that returns has done.
use crypto_mas.Repository.Accounts.{get_by_name-set_balances, get_by_name}
use crypto_mas.Prelude.{
  sym, subst, ◌∙◌, ap, ◌+◌, ◌≡◌, refl, true, false, some, List, [], ◌++◌, arith, length,
  length-append, All,
}
use crypto_mas.Numbers.{◌⊖◌, ◌<?◌, Numerics, IsOrdered, ◌≤?◌, nought}
use crypto_mas.Domain.{
  Position, TargetPosition, PortfolioTarget, PaperAccount, PaperExecutionReport, Store,
}
use crypto_mas.Repository.Positions.Queries.{OneOpen, OneOpen-append}
use crypto_mas.Paper.Session.{Broker, Call, Pass, ok, Ensures-bind, Ensures-ok, for_each}
use crypto_mas.Paper.Fill.{open_row, skip, fill}
use crypto_mas.Paper.Execute.{
  calculate_total_cost, Limits, limits, settle, execute_one, execute_target_portfolio,
}
use crypto_mas.Paper.Execute.Steps.{Stepped, skips, fills, Run, done, round, for_each-Run}
use crypto_mas.Paper.Execute.Book.{IsNew, Run-Added}

module _ ⦃n : Numerics⦄ where
  abbrev pub initial : PaperAccount → Store → Pass
  initial account s = record { store = s; cash = account.cash_balance; executed = []; skipped = [] }

  -- A call that returns has run through the whole target.
  pub record Ran (b : Broker) (c : Call) (account : PaperAccount) (target : PortfolioTarget)
      (s : Store) (r : PaperExecutionReport × Store) : Type 0 where
    pub end : Pass
    pub run : Run b c (limits c account s) (initial account s) target.target_positions end
    pub settled : r ≡ settle c account end

  pub ran :
      (b : Broker) (c : Call) (account : PaperAccount) (target : PortfolioTarget) (s : Store)
      {r : PaperExecutionReport × Store}
      → execute_target_portfolio b c account target s ≡ ok r
      → Ran b c account target s r
  unfolding execute_target_portfolio
  ran b c account target s =
      let l = limits c account s in
      Ensures-ok (Ran b c account target s) _ (
        Ensures-bind (Run b c l (initial account s) target.target_positions)
          (Ran b c account target s)
          (for_each (execute_one b c l) target.target_positions (initial account s))
          (λ done. ok (settle c account done))
          (for_each-Run b c l target.target_positions (initial account s))
          (λ u run. record { end = u; run = run; settled = refl }))

  -- A call that returns has added positions behind the old ones, and changed no old row. Each new
  -- position is an open one of the account and market, its symbol is in neither cooldown, its price and
  -- notional are positive, and its stop and target are the fixed percentages of the price. There is one
  -- trade, one order and one executed item in the report for each.
  pub execute_adds_positions :
      (b : Broker) (c : Call) (account : PaperAccount) (target : PortfolioTarget) (s : Store)
      {report : PaperExecutionReport} {s' : Store}
      → execute_target_portfolio b c account target s ≡ ok (report, s')
      → (rows : List Position) × (s'.positions ≡ s.positions ++ rows)
        × All (IsNew b c (limits c account s)) rows
        × (length report.executed ≡ length rows)
        × (length s'.trades ≡ length s.trades + length rows)
        × (length s'.orders ≡ length s.orders + length rows)
  unfolding settle
  execute_adds_positions b c account target s e =
      let r = ran b c account target s e in
      let added = Run-Added r.run in
      (
        added.rows,
        ap (λ x. x.1.positions) r.settled ∙ added.positions,
        added.are_new,
        omega (arith, added.executed, ap (λ x. length x.0.executed) r.settled),
        omega (arith, added.trades, ap (λ x. length x.1.trades) r.settled),
        omega (arith, added.orders, ap (λ x. length x.1.orders) r.settled),
      )

  reports-Stepped :
      {b : Broker} {c : Call} {l : Limits} {t : TargetPosition} {s u : Pass}
      → Stepped b c l t s u
      → length u.executed + length u.skipped ≡ length s.executed + length s.skipped + 1
  unfolding skip fill
  reports-Stepped {s} (skips k e) = rw e (omega (arith, length-append s.skipped))
  reports-Stepped {s} (fills f sound e) = rw e (omega (arith, length-append s.executed))

  reports-Run :
      {b : Broker} {c : Call} {l : Limits} {ts : List TargetPosition} {s u : Pass}
      → Run b c l s ts u
      → length u.executed + length u.skipped ≡ length s.executed + length s.skipped + length ts
  reports-Run done = omega arith
  reports-Run (round step run) = omega (arith, reports-Stepped step, reports-Run run)

  OneOpen-Stepped :
      {b : Broker} {c : Call} {l : Limits} {t : TargetPosition} {s u : Pass}
      → Stepped b c l t s u
      → OneOpen s.store.positions
      → OneOpen u.store.positions
  unfolding skip fill
  OneOpen-Stepped (skips k e) h = rw e h
  OneOpen-Stepped {b} {c} {t = t} {s = s} (fills f sound e) h =
      rw e (OneOpen-append (open_row b c t f s.store).0 s.store.positions h sound.fresh)

  OneOpen-Run :
      {b : Broker} {c : Call} {l : Limits} {ts : List TargetPosition} {s u : Pass}
      → Run b c l s ts u
      → OneOpen s.store.positions
      → OneOpen u.store.positions
  OneOpen-Run done h = h
  OneOpen-Run (round step run) h = OneOpen-Run run (OneOpen-Stepped step h)

  -- The report of a call that returns lists every target once, as executed or as skipped.
  execute_reports_all :
      (b : Broker) (c : Call) (account : PaperAccount) (target : PortfolioTarget) (s : Store)
      {report : PaperExecutionReport} {s' : Store}
      → execute_target_portfolio b c account target s ≡ ok (report, s')
      → length report.executed + length report.skipped ≡ length target.target_positions
  unfolding settle
  execute_reports_all b c account target s e =
      let r = ran b c account target s e in
      omega (
        arith,
        reports-Run r.run,
        ap (λ x. length x.0.executed) r.settled,
        ap (λ x. length x.0.skipped) r.settled,
      )

  -- If an account holds at most one open position in a symbol of a market, it still does after a call
  -- that returns, even where the target names a symbol twice.
  pub execute-OneOpen :
      (b : Broker) (c : Call) (account : PaperAccount) (target : PortfolioTarget) (s : Store)
      {report : PaperExecutionReport} {s' : Store}
      → execute_target_portfolio b c account target s ≡ ok (report, s')
      → OneOpen s.positions
      → OneOpen s'.positions
  unfolding settle
  execute-OneOpen b c account target s e h =
      let r = ran b c account target s e in
      subst OneOpen (sym (ap (λ x. x.1.positions) r.settled)) (OneOpen-Run r.run h)

  module _ (laws : IsOrdered) where
    open laws use {le_total, quantize_mono, quantize_nought, sub_nonneg}

    -- `available_cash - total_cost`, under the guard.
    paid_nonneg :
        (cash cost : n.Decimal) → cash <? cost ≡ false → nought ≤? n.quantize (cash ⊖ cost) ≡ true
    paid_nonneg cash cost covered =
        subst (λ z. z ≤? n.quantize (cash ⊖ cost) ≡ true) quantize_nought
          (quantize_mono nought (cash ⊖ cost) (sub_nonneg cash cost (ground arith)))

    cash-Stepped :
        {b : Broker} {c : Call} {l : Limits} {t : TargetPosition} {s u : Pass}
        → Stepped b c l t s u
        → nought ≤? s.cash ≡ true
        → nought ≤? u.cash ≡ true
    unfolding skip fill
    cash-Stepped (skips k e) h = rw e h
    cash-Stepped {b} {s = s} (fills f sound e) h =
        rw e (paid_nonneg s.cash (calculate_total_cost b.calculator f.notional).0 sound.covered)

    cash-Run :
        {b : Broker} {c : Call} {l : Limits} {ts : List TargetPosition} {s u : Pass}
        → Run b c l s ts u
        → nought ≤? s.cash ≡ true
        → nought ≤? u.cash ≡ true
    cash-Run done h = h
    cash-Run (round step run) h = cash-Run run (cash-Stepped step h)

    -- A call that returns and began with no debt leaves none: the account's cash balance is not
    -- negative, however many orders were filled.
    pub execute_no_overdraft :
        (b : Broker) (c : Call) (account : PaperAccount) (target : PortfolioTarget) (s : Store)
        {report : PaperExecutionReport} {s' : Store} (a : PaperAccount)
        → execute_target_portfolio b c account target s ≡ ok (report, s')
        → nought ≤? account.cash_balance ≡ true
        → get_by_name c.account_name s'.accounts ≡ some a
        → nought ≤? a.cash_balance ≡ true
    unfolding settle
    execute_no_overdraft b c account target s a e h found =
        let r = ran b c account target s e in
        let balance =
          get_by_name-set_balances c.account_name r.end.cash _ r.end.store.accounts a
            (ap (λ x. get_by_name c.account_name x.1.accounts) (sym r.settled) ∙ found) in
        rw balance.0 (cash-Run r.run h)
