-- ===== src/Paper/Valuation.antt =====
-- `MarkToMarket._calculate_open_positions_value` of services/paper_trading/mark_to_market.py.
use crypto_mas.Prelude.{List, [], ◌∷◌, String, if◌then◌else◌}
use crypto_mas.Numbers.{Numerics, ◌⊕◌, ◌⊖◌, ◌⊗◌, nought}
use crypto_mas.Domain.{is_long, Position, Store}
use crypto_mas.Repository.Positions.{list_open_positions}

module _ ⦃n : Numerics⦄ where
  pub position_value : Position → n.Decimal
  position_value p =
      if is_long p.side
      then p.current_price ⊗ p.quantity
      else (n.lit 2 0 ⊗ p.entry_price ⊖ p.current_price) ⊗ p.quantity

  pub add_values : n.Decimal → List Position → n.Decimal
  unfolding position_value
  add_values total [] = total
  add_values total (p ∷ ps) = add_values (total ⊕ position_value p) ps

  unfoldable pub open_positions_value : String → Store → n.Decimal
  unfolding add_values
  open_positions_value account s =
      n.quantize (add_values nought (list_open_positions account s.positions))
