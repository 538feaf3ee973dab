-- ===== src/Risk.antt =====
-- engine/risk: the limits of a portfolio target and the engine that enforces them.
pub mod Limits
pub mod Engine
pub mod Models
