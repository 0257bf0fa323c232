-- ===== src/Balancer.antt =====
-- balancer/load_balancer.py
pub mod State
pub mod Weights
pub mod Round
pub mod Balance
pub mod Fairness
pub mod Select
pub mod Picks
pub mod Choice
