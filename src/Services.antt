-- ===== src/Services.antt =====
-- The package `services`: the endpoints of the Rosetta API.
pub mod Errors
pub mod Interfaces
pub mod Data
pub mod Construction
pub mod Logger
pub mod Wiring
