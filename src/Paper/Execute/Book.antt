-- ===== src/Paper/Execute/Book.antt =====
-- What a run of `execute_target_portfolio` does to the tables.
use mathlib.Core.List.{append-nil, append_assoc}
use crypto_mas.Prelude.{
  ◌+◌, ◌≡◌, refl, sym, ap, ◌∙◌, false, some, List, [], ◌∷◌, ◌++◌, arith, length, length-append, All,
  All-append,
}
use crypto_mas.Numbers.{Numerics, ◌≤?◌, nought}
use crypto_mas.Domain.{opened, Position, TargetPosition}
use crypto_mas.Paper.Calculator.{pct_levels, calculate_sl_tp-none}
use crypto_mas.Paper.Session.{Broker, Call, Pass}
use crypto_mas.Paper.Fill.{skip, Fill, fill, open_row}
use crypto_mas.Paper.Execute.{Limits, contains}
use crypto_mas.Paper.Execute.Steps.{Stepped, skips, fills, IsSound, Run, done, round}

module _ ⦃n : Numerics⦄ where
  -- What is known of a position that a pass has opened.
  pub record IsNew (b : Broker) (c : Call) (l : Limits) (p : Position) : Type 0 where
    pub account : p.account_name ≡ c.account_name
    pub exchange : p.exchange ≡ c.exchange
    pub status : p.status ≡ opened
    pub not_stopped : contains p.symbol l.stopped ≡ false
    pub not_whipsawed : contains p.symbol l.whipsawed ≡ false
    pub price_positive : p.entry_price ≤? nought ≡ false
    pub notional_positive : p.notional_value ≤? nought ≡ false
    pub stop : p.stop_loss_price ≡ some (pct_levels b.calculator p.entry_price p.side).0
    pub target : p.take_profit_price ≡ some (pct_levels b.calculator p.entry_price p.side).1

  fill-IsNew :
      (b : Broker) (c : Call) (l : Limits) (t : TargetPosition) (f : Fill) (s : Pass)
      → IsSound b c l t s f
      → IsNew b c l (open_row b c t f s.store).0
  unfolding open_row
  fill-IsNew b c l t f s sound = record {
    account = refl;
    exchange = refl;
    status = refl;
    not_stopped = sound.not_stopped;
    not_whipsawed = sound.not_whipsawed;
    price_positive = sound.price_positive;
    notional_positive = sound.notional_positive;
    stop =
        ap (λ x. some x.0)
          (calculate_sl_tp-none b.calculator f.price t.side t.sl_mult_override t.tp_mult_override);
    target =
        ap (λ x. some x.1)
          (calculate_sl_tp-none b.calculator f.price t.side t.sl_mult_override t.tp_mult_override);
  }

  -- The positions, trades and orders that stand behind the old ones.
  pub record Added (b : Broker) (c : Call) (l : Limits) (s u : Pass) : Type 0 where
    pub rows : List Position
    pub positions : u.store.positions ≡ s.store.positions ++ rows
    pub are_new : All (IsNew b c l) rows
    pub executed : length u.executed ≡ length s.executed + length rows
    pub trades : length u.store.trades ≡ length s.store.trades + length rows
    pub orders : length u.store.orders ≡ length s.store.orders + length rows
    pub accounts : u.store.accounts ≡ s.store.accounts

  Stepped-Added :
      (b : Broker) (c : Call) (l : Limits) (t : TargetPosition) {s u : Pass}
      → Stepped b c l t s u
      → Added b c l s u
  unfolding skip fill
  Stepped-Added b c l t {s} (skips k e) = rw e (record {
    rows = [];
    positions = sym (append-nil s.store.positions);
    are_new = tt;
    executed = omega arith;
    trades = omega arith;
    orders = omega arith;
    accounts = refl;
  })
  Stepped-Added b c l t {s} (fills f sound e) = rw e (record {
    rows = (open_row b c t f s.store).0 ∷ [];
    positions = refl;
    are_new = (fill-IsNew b c l t f s sound, tt);
    executed = length-append _ _;
    trades = length-append _ _;
    orders = length-append _ _;
    accounts = refl;
  })

  Added-trans :
      {b : Broker} {c : Call} {l : Limits} {s u v : Pass}
      → Added b c l s u
      → Added b c l u v
      → Added b c l s v
  Added-trans {b} {c} {l} {s} h k = record {
    rows = h.rows ++ k.rows;
    positions =
        k.positions
        ∙ ap (λ xs. xs ++ k.rows) h.positions
        ∙ append_assoc s.store.positions h.rows k.rows;
    are_new = All-append (IsNew b c l) h.rows k.rows h.are_new k.are_new;
    executed = omega (arith, h.executed, k.executed, length-append h.rows k.rows);
    trades = omega (arith, h.trades, k.trades, length-append h.rows k.rows);
    orders = omega (arith, h.orders, k.orders, length-append h.rows k.rows);
    accounts = k.accounts ∙ h.accounts;
  }

  pub Run-Added :
      {b : Broker} {c : Call} {l : Limits} {ts : List TargetPosition} {s u : Pass}
      → Run b c l s ts u
      → Added b c l s u
  Run-Added {s} done = record {
    rows = [];
    positions = sym (append-nil _);
    are_new = tt;
    executed = omega arith;
    trades = omega arith;
    orders = omega arith;
    accounts = refl;
  }
  Run-Added {b} {c} {l} (round {t} step run) =
      Added-trans (Stepped-Added b c l t step) (Run-Added run)
