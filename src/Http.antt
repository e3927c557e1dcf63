-- ===== src/Http.antt =====
-- The HTTP layer: backend/src/middleware and the routes of backend/src/routes that change state.
pub mod Account
pub mod Message
pub mod Roles
pub mod Authenticate
pub mod Endpoint
pub mod Access
pub mod Rotation
pub mod Login
pub mod NewPassword
pub mod UserIds
pub mod Acknowledge
pub mod Work
pub mod Tickets
pub mod Batch
pub mod FleetRoutes
pub mod WarehouseRoutes
pub mod SyncRoutes
pub mod PullRoutes
