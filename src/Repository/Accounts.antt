-- ===== src/Repository/Accounts.antt =====
-- domain/repositories/paper_account_repository.py
use crypto_mas.Prelude.{
  map, arith, ◌≡◌, Option, none, some, List, [], ◌∷◌, ◌++◌, String, str_eq, if◌then◌else◌,
}
use crypto_mas.Numbers.{Numerics}
use crypto_mas.Domain.{PaperAccount, Store}

module _ ⦃n : Numerics⦄ where
  open n use {Decimal}

  unfoldable pub get_by_name : String → List PaperAccount → Option PaperAccount
  get_by_name name [] = none
  get_by_name name (a ∷ rest) = if str_eq a.name name then some a else get_by_name name rest

  pub create_if_not_exists :
      String → String → String → Decimal → List PaperAccount → PaperAccount × List PaperAccount
  unfolding get_by_name
  create_if_not_exists name exchange currency balance accounts = elim (get_by_name name accounts) [
    | some existing ↦ (existing, accounts)
    | none ↦
        let account : PaperAccount = record {
          name = name;
          exchange = exchange;
          base_currency = currency;
          initial_balance = balance;
          cash_balance = balance;
          equity = balance;
        } in
        (account, accounts ++ account ∷ [])
  ]

  -- A name is unique in the table; the row of that name takes the balances.
  unfoldable pub set_balances : String → Decimal → Decimal → List PaperAccount → List PaperAccount
  set_balances name cash equity [] = []
  set_balances name cash equity (a ∷ rest) =
      (if str_eq a.name name then record a { cash_balance = cash; equity = equity } else a)
      ∷ set_balances name cash equity rest

  unfoldable pub update_balances : String → Decimal → Decimal → Store → Store
  update_balances name cash equity s = record s {
    accounts = set_balances name cash equity s.accounts;
  }

  -- `account.cash_balance = cash`
  unfoldable pub set_cash : String → Decimal → Store → Store
  set_cash name cash s = record s {
    accounts =
        map (λ a. if str_eq a.name name then record a { cash_balance = cash } else a) s.accounts;
  }

  -- The balances that are written are the ones that are read.
  pub get_by_name-set_balances :
      (name : String) (cash equity : Decimal) (accounts : List PaperAccount) (a : PaperAccount)
      → get_by_name name (set_balances name cash equity accounts) ≡ some a
      → (a.cash_balance ≡ cash) × (a.equity ≡ equity)
  unfolding get_by_name set_balances
  get_by_name-set_balances name cash equity [] a h = cc
  get_by_name-set_balances name cash equity (x ∷ rest) a h =
      ground (arith, get_by_name-set_balances name cash equity rest a)
