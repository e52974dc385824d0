-- ===== src/Deployment/Deployer/Routes.antt =====
-- The routes that a project has retired, across a run (internal/deployment/deployer.go).
use winify.Common.{◌≡◌}
use winify.Deployment.Deployer.{World}

-- The same, as a family that names both worlds.
record SameRoutes (u v : World) : Type 0 where
  same : v.retired ≡ u.retired
