-- ===== src/MarketData.antt =====
-- services/market_data_service: candles and the check of their integrity.
pub mod Schemas
pub mod Integrity
