-- ===== src/Oms/Orders.antt =====
-- What an order does to the positions, and what is remembered of it.
use crypto_mas.Repository.Positions.Queries.{
  put-append, is_held_self, get_open_position-append, row,
}
use crypto_mas.Prelude.{
  ◌≡◌, refl, false, none, some, List, [], ◌∷◌, ◌++◌, inl, inr, arith, String, str_eq, if◌then◌else◌,
  Bool-cases, eq_iff,
}
use crypto_mas.Numbers.{◌⊗◌, ◌⊖◌, Numerics}
use crypto_mas.Domain.{closed, buy, sell, long, oms_sell, Position, Store}
use crypto_mas.Repository.Positions.{
  raw_pnl, zero_if_tiny, get_open_position, close_position, save, create_open_position,
}
use crypto_mas.Oms.{
  filled, Order, PaperOms, assign, find, fill_of, execute_buy, execute_sell, execute, submit_order,
  get_order_status,
}

find-assign {ℓ} :
    {A : Type ℓ} (key : String) (a : A) (d : List (String × A)) → find key (assign key a d) ≡ some a
find-assign key a [] = ground (arith, eq_iff key key)
find-assign key a (e ∷ d) = ground (arith, eq_iff key key, find-assign key a d)

find-assign_ne {ℓ} :
    {A : Type ℓ} (key other : String) (a : A) (d : List (String × A))
    → str_eq key other ≡ false
    → find other (assign key a d) ≡ find other d
find-assign_ne key other a [] h = rw h refl
find-assign_ne key other a (e ∷ d) h =
    ground
      (arith, eq_iff e.0 key, eq_iff key other, eq_iff e.0 other, find-assign_ne key other a d h)

module _ ⦃n : Numerics⦄ where
  open n use {quantize}

  -- The status of an order that was submitted is the result its submission returned, and the status of
  -- every other order is what it was.
  get_order_status-submit_order :
      (o : Order) (oms : PaperOms) (id : String)
      → get_order_status id (submit_order o oms).1
        ≡ (if str_eq o.order_id id then (submit_order o oms).0 else get_order_status id oms)
  unfolding get_order_status submit_order
  get_order_status-submit_order o oms id = elim (Bool-cases (str_eq o.order_id id)) [
    | inl e ↦
        let found = find-assign o.order_id (execute o oms.store).0 oms.results in
        let same : find id (assign o.order_id (execute o oms.store).0 oms.results)
            ≡ some (execute o oms.store).0 =
          rw⁻¹ ((eq_iff o.order_id id).0 e) found in
        rw (e, get_order_status, same) refl
    | inr e ↦
        rw (e, get_order_status, find-assign_ne o.order_id id (execute o oms.store).0 oms.results e)
          refl
  ]

  execute-buy : (o : Order) (s : Store) → o.side ≡ buy → execute o s ≡ execute_buy o s
  unfolding execute
  execute-buy o s h = rw (h, execute) refl

  execute-sell :
      (o : Order) (s : Store) {p : Position}
      → o.side ≡ sell
      → get_open_position o.account_name o.exchange o.symbol s.positions ≡ some p
      → execute o s
        ≡ (fill_of o p.quantity, save (close_position p o.price o.created_at oms_sell) s)
  unfolding execute execute_sell
  execute-sell o s h k = rw (h, k, execute, execute_sell) refl

  -- A buy and then a sell of the same symbol, of an account that has no open position in it: the sell is
  -- filled with the quantity that was bought, whatever it asks for, at its own price; and the only row that
  -- the two leave behind is closed, with the gain between the two prices.
  pub sell_after_buy :
      (oms : PaperOms) (b s : Order)
      → b.side ≡ buy
      → s.side ≡ sell
      → s.account_name ≡ b.account_name
      → s.exchange ≡ b.exchange
      → s.symbol ≡ b.symbol
      → get_open_position b.account_name b.exchange b.symbol oms.store.positions ≡ none
      → row oms.store.next_position oms.store.positions ≡ none
      → let out = submit_order s (submit_order b oms).1 in
        (out.0.status ≡ filled)
        × (out.0.filled_quantity ≡ b.quantity)
        × (out.0.filled_price ≡ s.price)
        × (q : Position) × (out.1.store.positions ≡ oms.store.positions ++ q ∷ [])
        × (q.status ≡ closed)
        × (q.realized_pnl ≡ zero_if_tiny ((quantize s.price ⊖ b.price) ⊗ b.quantity))
  unfolding submit_order execute_buy fill_of create_open_position save close_position raw_pnl
  sell_after_buy oms b s is_buy is_sell account exchange symbol free fresh =
      let p =
        (create_open_position b.account_name b.exchange b.symbol b.quantity b.price
          (b.quantity ⊗ b.price) b.created_at none none b.strategy_mode long oms.store).0 in
      let q = close_position p s.price s.created_at oms_sell in
      let found : get_open_position s.account_name s.exchange s.symbol
            (oms.store.positions ++ p ∷ [])
          ≡ some p =
        rw (account, exchange, symbol)
          (get_open_position-append b.account_name b.exchange b.symbol p oms.store.positions free
            (is_held_self p refl)) in
      rw (execute-buy b oms.store is_buy, execute-sell s (execute_buy b oms.store).1 is_sell found)
        (refl, refl, refl, q, put-append q p oms.store.positions fresh refl, refl, refl)
