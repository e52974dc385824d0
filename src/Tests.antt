-- ===== src/Tests.antt =====
-- Runs on concrete data.
mod Data
mod Stores
mod Rules
mod Servers
mod Deploys
mod Hooks
mod Logins
mod Setup
mod Routes
mod Shells
mod Settings
mod Uploads
mod Variables
mod Projects
mod Slots
mod Accepted
