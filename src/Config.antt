-- ===== src/Config.antt =====
-- internal/config: the entities, and the rules by which they are accepted.
pub mod Settings
pub mod Entities
pub mod Rules
pub mod Paths
pub mod Servers
pub mod Projects
