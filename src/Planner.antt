-- ===== src/Planner.antt =====
-- The planners of app/main.py: forecasts, the dynamic packing of objects into waves, and the times at
-- which their restores and transfers are scheduled.
mod Tests
pub mod Predict
pub mod Assign
pub mod Dynamic
pub mod Schedule
pub mod NextWave
pub mod Pipeline
