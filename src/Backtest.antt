-- ===== src/Backtest.antt =====
-- services/backtesting/memory_cache.py and engine/backtest/engine.py.
pub mod Series
pub mod Snapshots
pub mod Candles
pub mod Positions
pub mod Book
pub mod Engine
pub mod Report
mod Tests
