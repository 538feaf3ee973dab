-- ===== src/Portfolio.antt =====
-- engine/portfolio/portfolio.py: the portfolio engine.
pub mod Selection
pub mod Replacement
pub mod Weights
pub mod Results
pub mod Tests
pub mod Handover
