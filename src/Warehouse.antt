-- ===== src/Warehouse.antt =====
-- backend/src/services/warehouseService.js, a module for each of its parts.
pub mod Grn
pub mod Outbound
pub mod Custody
pub mod Stock
pub mod Atomicity
pub mod Frame
pub mod Chain
pub mod Refinement
