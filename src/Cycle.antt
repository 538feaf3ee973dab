-- ===== src/Cycle.antt =====
-- services/trading_cycle_service: a trading cycle, from the symbols it is given to the task that it puts.
pub mod Views
pub mod Gates
pub mod Strategies
pub mod Target
pub mod MarketData
pub mod Run
mod Tests
