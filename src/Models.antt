-- ===== src/Models.antt =====
-- The tables of internal/models/store.go.
pub mod Deployments
pub mod Deliveries
pub mod Variables
pub mod Projects
