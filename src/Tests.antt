-- ===== src/Tests.antt =====
-- Runs of the models on small data.
pub mod Data
mod Sagas
mod Examples
mod Services
mod Portal
mod Gateway
