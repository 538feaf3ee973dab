-- ===== src/Paper.antt =====
-- services/paper_trading: the calculator of prices and costs, the broker's two passes over a target,
-- and the marking of open positions to market.
pub mod Calculator
pub mod Session
pub mod Valuation
pub mod Loop
pub mod Fill
pub mod Execute
pub mod Close
pub mod Mark
pub mod Broker
pub mod Tests
