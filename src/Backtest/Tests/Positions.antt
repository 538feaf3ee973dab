-- ===== src/Backtest/Tests/Positions.antt =====
-- Concrete runs of the cooldowns: two positions of one symbol that were stopped, at 10 and at 20 minutes.
use crypto_mas.Prelude.{arith, ◌≡◌, List, [], ◌∷◌, ◌++◌, refl, ℕ, true, false, map}
use crypto_mas.Prelude.Dict.{contains}
use crypto_mas.Numbers.Fixed.{fixed, literal}
use crypto_mas.Domain.{long, stop_loss, Position}
use crypto_mas.Repository.Positions.{
  minutes, in_market, of_account, get_whipsaw_cooldown_symbols, get_recent_stop_loss_symbols,
}
use crypto_mas.Backtest.Positions.{
  MemoryPositions, memory_whipsaw, memory_recent_stop_loss, memory_close, empty_memory,
}
use crypto_mas.Backtest.Positions.Stops.{
  Closing, memory_after, closed_row, memory_whipsaw-refines, memory_recent_stop_loss-early,
}
use crypto_mas.Paper.Tests

abbrev stopped : ℕ → Closing
stopped time = record {
  position = Tests.position 1 "SOLUSDT" long 50 40 60;
  price = literal 40 0;
  time = minutes time;
  reason = stop_loss;
}

abbrev open_rows : List Position
open_rows = Tests.position 2 "ETHUSDT" long 50 40 60 ∷ []

abbrev after_one : MemoryPositions
after_one = memory_after (stopped 10 ∷ []) empty_memory

whipsaw_test :
    memory_whipsaw (minutes 30) 2 60 (memory_after (stopped 10 ∷ stopped 20 ∷ []) empty_memory)
    ≡ "SOLUSDT" ∷ []
unfolding memory_whipsaw memory_close empty_memory
whipsaw_test = refl

memory_whipsaw-refines_example :
    contains "SOLUSDT"
      (memory_whipsaw (minutes 30) 2 60 (memory_after (stopped 10 ∷ stopped 20 ∷ []) empty_memory))
    ≡ contains "SOLUSDT" (
        get_whipsaw_cooldown_symbols "swing" "binance"
          (minutes 30)
          2
          60
          (open_rows ++ map closed_row (stopped 10 ∷ stopped 20 ∷ [])))
unfolding in_market of_account
memory_whipsaw-refines_example =
    memory_whipsaw-refines "swing" "binance" (minutes 30) 2 60 "SOLUSDT" open_rows
      (stopped 10 ∷ stopped 20 ∷ []) (omega arith) (refl, tt) (refl, (refl, tt))

memory_recent_stop_loss-early_example :
    (contains "SOLUSDT" (
        memory_recent_stop_loss
          (minutes 60)
          120
          (memory_close
            (stopped 20).position
            (stopped 20).price
            (minutes 20)
            stop_loss
            empty_memory).1)
      ≡ false)
    × (contains "SOLUSDT" (
          get_recent_stop_loss_symbols "swing" "binance"
            (minutes 60)
            120
            (open_rows ++ closed_row (stopped 20) ∷ []))
        ≡ true)
unfolding in_market of_account empty_memory
memory_recent_stop_loss-early_example =
    memory_recent_stop_loss-early "swing" "binance" (minutes 60) 120 (stopped 20) empty_memory
      open_rows refl refl tt (omega arith) (omega arith)
