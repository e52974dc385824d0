-- ===== src/Deployment.antt =====
-- internal/deployment: the deploy pipeline and its parts.
pub mod Shell
pub mod Upload
pub mod BlueGreen
pub mod Docker
pub mod Audit
pub mod Revision
pub mod Health
pub mod SharedVars
pub mod Deployer
