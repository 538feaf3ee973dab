-- ===== src/Paper/Session.antt =====
-- What the paper broker's passes share: how a broker is set up, the call that is served, the state of
-- a pass over a list, and the ways in which a pass ends (services/paper_trading/paper_broker.py).
use crypto_mas.Prelude.{All, [], ◌∷◌, ◌≡◌, ℕ, Bool, Option, some, List, String, if◌then◌else◌}
use crypto_mas.Numbers.{Numerics}
use crypto_mas.Domain.{
  PositionSide, is_long, TradeSide, buy, sell, StrategyMode, PaperExecutionItem, Store,
}
use crypto_mas.Paper.Calculator.{RiskCalculator, new}

module _ ⦃n : Numerics⦄ where
  pub record Broker : Type 0 where
    pub calculator : RiskCalculator
    pub is_backtest : Bool

  -- `PaperBrokerService(db, strategy_mode=mode, is_backtest=b)`
  unfoldable pub new_broker : StrategyMode → Bool → Broker
  new_broker mode b = record { calculator = new mode; is_backtest = b }

-- The arguments of a call that its steps pass on, and the time. The clock stands still in a call, as
-- it does under FixedTimeProvider and SimulatedTimeProvider.
pub record Call : Type 0 where
  pub account_name : String
  pub exchange : String
  pub timeframe : String
  pub cycle_id : Option ℕ
  pub now : ℕ

module _ ⦃n : Numerics⦄ where
  -- The local variables of a pass, and the tables.
  pub record Pass : Type 0 where
    pub store : Store
    pub cash : n.Decimal
    pub executed : List PaperExecutionItem
    pub skipped : List PaperExecutionItem

  -- `raised` is an exception that leaves the method; the rows written before it stay.
  pub data Outcome (A : Type 0) : Type 0 where
    ok : A → Outcome A
    raised : Store → Outcome A

  infixl 5 ◌>>=◌
  abbrev pub ◌>>=◌ : {A B : Type 0} → Outcome A → (A → Outcome B) → Outcome B
  ok a >>= f = f a
  raised s >>= f = raised s

  -- `for x in xs`, where an exception ends the loop.
  unfoldable pub for_each : {A : Type 0} → (A → Pass → Outcome Pass) → List A → Pass → Outcome Pass
  for_each one [] s = ok s
  for_each one (x ∷ xs) s = one x s >>= for_each one xs

  -- A value that a division gave, or the exception.
  abbrev pub or_raise : {A : Type 0} → Option A → Store → Outcome A
  or_raise Option.none s = raised s
  or_raise (some a) s = ok a

  -- A value, and not an exception.
  abbrev pub IsOk : {A : Type 0} → Outcome A → Type 0
  IsOk (ok a) = Unit
  IsOk (raised s) = ⊥

  pub IsOk-bind :
      {A B : Type 0} (m : Outcome A) (f : A → Outcome B)
      → IsOk m
      → ((a : A) → IsOk (f a))
      → IsOk (m >>= f)
  IsOk-bind (ok a) f h k = k a
  IsOk-bind (raised s) f h k = absurd h

  pub for_each-IsOk :
      {A : Type 0} (one : A → Pass → Outcome Pass) (P : A → Type 0)
      → ((x : A) → P x → (s : Pass) → IsOk (one x s))
      → (xs : List A) → All P xs
      → (s : Pass) → IsOk (for_each one xs s)
  unfolding for_each
  for_each-IsOk one P each [] h s = tt
  for_each-IsOk one P each (x ∷ xs) h s =
      IsOk-bind (one x s) (for_each one xs) (each x h.0 s) (λ u. for_each-IsOk one P each xs h.1 u)

  -- A property of the state of a pass that did not raise.
  abbrev pub Ensures : {A : Type 0} → (A → Type 0) → Outcome A → Type 0
  Ensures P (ok a) = P a
  Ensures P (raised s) = Unit

  pub Ensures-bind :
      {A B : Type 0} (P : A → Type 0) (Q : B → Type 0) (m : Outcome A) (f : A → Outcome B)
      → Ensures P m
      → ((a : A) → P a → Ensures Q (f a))
      → Ensures Q (m >>= f)
  Ensures-bind P Q (ok a) f h k = k a h
  Ensures-bind P Q (raised s) f h k = tt

module _ ⦃n : Numerics⦄ where
  pub Ensures-map :
      {A : Type 0} (P Q : A → Type 0) (m : Outcome A)
      → ((a : A) → P a → Q a)
      → Ensures P m
      → Ensures Q m
  Ensures-map P Q (ok a) f h = f a h
  Ensures-map P Q (raised s) f h = tt

module _ ⦃n : Numerics⦄ where
  -- A property of the end that every value of the first part leads to.
  pub Ensures-then :
      {A B : Type 0} (Q : B → Type 0) (m : Outcome A) (f : A → Outcome B)
      → ((a : A) → Ensures Q (f a))
      → Ensures Q (m >>= f)
  Ensures-then Q (ok a) f k = k a
  Ensures-then Q (raised s) f k = tt

  pub Ensures-ok :
      {A : Type 0} (P : A → Type 0) (m : Outcome A) {a : A} → Ensures P m → m ≡ ok a → P a
  Ensures-ok P m h e = rw e at h

abbrev pub opening_side : PositionSide → TradeSide
opening_side side = if is_long side then buy else sell

abbrev pub closing_side : PositionSide → TradeSide
closing_side side = if is_long side then sell else buy
