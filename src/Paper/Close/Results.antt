-- ===== src/Paper/Close/Results.antt =====
-- What a call of `close_positions_not_in_target` that returns has done.
use crypto_mas.Prelude.{
  inr, inl, ◌⊎◌, true, ℕ, ◌+◌, ◌≡◌, refl, sym, ap, ◌∙◌, subst, some, length, All, arith,
}
use crypto_mas.Numbers.{Numerics}
use crypto_mas.Domain.{Position, PaperAccount, PortfolioTarget, PaperExecutionReport, Store}
use crypto_mas.Repository.Positions.{list_open_positions}
use crypto_mas.Repository.Positions.Queries.{row}
use crypto_mas.Repository.Positions.Listing.{
  is_listed-cases, is_listed, KeysUnique, list_open_positions-KeysUnique, list_open_positions-IsRow,
}
use crypto_mas.Paper.Session.{Broker, Call, Pass, ok, Ensures-ok, Ensures-bind, for_each}
use crypto_mas.Paper.Execute.{settle}
use crypto_mas.Paper.Execute.Results.{initial}
use crypto_mas.Paper.Loop.{Rounds, for_each-Rounds}
use crypto_mas.Paper.Close.{close_one, close_positions_not_in_target}
use crypto_mas.Paper.Close.Rounds.{Closed, close_one-Round}

module _ ⦃n : Numerics⦄ where
  record Ran (b : Broker) (c : Call) (account : PaperAccount) (target : PortfolioTarget) (s : Store)
      (r : PaperExecutionReport × Store) : Type 0 where
    end : Pass
    rounds :
        Rounds
          (Closed b c target)
          (list_open_positions c.account_name s.positions)
          (initial account s)
          end
    settled : r ≡ settle c account end

  ran :
      (b : Broker) (c : Call) (account : PaperAccount) (target : PortfolioTarget) (s : Store)
      {r : PaperExecutionReport × Store}
      → KeysUnique s.positions
      → close_positions_not_in_target b c account target s ≡ ok r
      → Ran b c account target s r
  unfolding close_positions_not_in_target
  ran b c account target s h =
      let ps = list_open_positions c.account_name s.positions in
      Ensures-ok (Ran b c account target s) _ (
        Ensures-bind (Rounds (Closed b c target) ps (initial account s)) (Ran b c account target s)
          (for_each (close_one b c target) ps (initial account s))
          (λ done. ok (settle c account done))
          (for_each-Rounds (Closed b c target) (close_one b c target)
            (λ p u. close_one-Round b c target p u) ps (initial account s)
            (list_open_positions-KeysUnique c.account_name s.positions h)
            (list_open_positions-IsRow c.account_name s.positions h))
          (λ u rounds. record { end = u; rounds = rounds; settled = refl }))

  -- If no two positions share a key, then after a call that returns each position that was open in the
  -- account is as before, where the target holds its symbol on its side or there is no positive price
  -- for it, or else it is sold at that price after slippage, with the fee taken off its gain. No other
  -- row has changed, and the report has one item for each position.
  pub close_positions_not_in_target-Closed :
      (b : Broker) (c : Call) (account : PaperAccount) (target : PortfolioTarget) (s : Store)
      {report : PaperExecutionReport} {s' : Store}
      → KeysUnique s.positions
      → close_positions_not_in_target b c account target s ≡ ok (report, s')
      → let ps = list_open_positions c.account_name s.positions in
        All
          (λ p.
            (r : Position) × (row p.id s'.positions ≡ some r) × Closed b c target s.snapshots p r)
          ps
        × ((id : ℕ) → (is_listed id ps ≡ true) ⊎ (row id s'.positions ≡ row id s.positions))
        × (length report.executed + length report.skipped ≡ length ps)
  unfolding settle
  close_positions_not_in_target-Closed b c account target s h e =
      let r = ran b c account target s h e in
      let ps = list_open_positions c.account_name s.positions in
      let same = ap (λ x. x.1.positions) r.settled in
      (
        subst
            (λ t.
              All (λ p. (q : Position) × (row p.id t ≡ some q) × Closed b c target s.snapshots p q)
                ps)
            (sym same) r.rounds.became,
        (λ id. elim (is_listed-cases id ps) [
          | inl h ↦ inl h
          | inr h ↦ inr (ap (row id) same ∙ r.rounds.others id h)
        ]),
        omega (
          arith,
          r.rounds.reported,
          ap (λ x. length x.0.executed) r.settled,
          ap (λ x. length x.0.skipped) r.settled,
        ),
      )
