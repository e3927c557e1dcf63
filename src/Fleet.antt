-- ===== src/Fleet.antt =====
-- backend/src/services/fleetService.js, a module for each of its parts.
pub mod Vehicles
pub mod Trips
pub mod Fuel
pub mod Maintenance
pub mod Atomicity
pub mod OpenTrips
pub mod Decisions
pub mod Threshold
pub mod Signatures
pub mod Approvals
pub mod Reports
