-- ===== src/Simulator.antt =====
-- The deterministic cloud of app/simulated_data.py and app/simulation_engine.py.
mod Tests
pub mod Payload
pub mod Catalog
pub mod Pages
pub mod Restores
pub mod Jobs
pub mod Clock
pub mod Scenarios
